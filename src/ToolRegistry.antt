-- ===== src/ToolRegistry.antt =====
-- packages/agent-runtime/src/agent-tool-registry.ts: the registry of tools and the hooks that put
-- every call of a tool before the policy bridge. Arguments and details are types of the caller's;
-- the bridge is a parameter that answers, or throws (`none`). A tool's `execute` and schema of
-- parameters are kept out; that the schema is an object is a field.
pub mod Gate
use wknowledge.Base.{
  ℕ, Text, units, Bool, true, false, not, ◌||◌, ◌&&◌, Option, none, some, List, [], ◌∷◌, Result, ok,
  err, ◌>>=◌, ◌>>◌, reject_if, ltb, if◌then◌else◌, get, set, is_some, is_blank, length, map, values,
}
use wknowledge.AgentCore.{is_tool_name}

pub data ToolRisk : Type 0 where
  low medium high : ToolRisk

pub data ExecutionMode : Type 0 where
  sequential parallel : ExecutionMode

pub record RegisteredTool : Type 0 where
  pub name : Text
  pub label : Option Text
  pub description : Text
  pub has_object_parameters : Bool
  pub execution_mode : Option ExecutionMode
  pub risk : ToolRisk
  pub required_scope : Text

pub data ToolError : Type 0 where
  agent_tool_definition_invalid agent_tool_duplicate : ToolError

pub data PolicyDecision : Type 0 where
  allows : PolicyDecision
  denies : (code : Text) (terminate : Option Bool) → PolicyDecision

-- `BeforeToolCallResult` with `block: true`.
pub record Block : Type 0 where
  pub reason : Text
  pub terminate : Option Bool

abbrev pub Registry : Type 0
Registry = List (Text × RegisteredTool)

abbrev pub or_too_long : ℕ → Text → Bool
or_too_long limit s = is_blank s || ltb limit (length s)

unfoldable pub assert_descriptor_shape : RegisteredTool → Result ToolError (Unit {0})
assert_descriptor_shape tool = do
  reject_if (not (is_tool_name tool.name)) agent_tool_definition_invalid
  reject_if (or_too_long 2000 tool.description) agent_tool_definition_invalid
  reject_if (not tool.has_object_parameters) agent_tool_definition_invalid
  reject_if (or_too_long 200 tool.required_scope) agent_tool_definition_invalid

unfoldable pub register : RegisteredTool → Registry → Result ToolError Registry
register tool tools = do
  assert_descriptor_shape tool
  reject_if (is_some (get tool.name tools)) agent_tool_duplicate
  ok (set tool.name tool tools)

unfoldable pub list : Registry → List RegisteredTool
list tools = values tools

-- What `toPiTools` gives of a tool.
pub record PiTool : Type 0 where
  pub name : Text
  pub label : Text
  pub description : Text
  pub execution_mode : ExecutionMode

abbrev pub or_else {ℓ} : {A : Type ℓ} → Option A → A → A
or_else none a = a
or_else (some x) a = x

unfoldable pub to_pi_tools : Registry → List PiTool
to_pi_tools tools =
    map
      (λ tool. record {
        name = tool.name;
        label = or_else tool.label tool.name;
        description = tool.description;
        execution_mode = or_else tool.execution_mode sequential;
      })
      (values tools)

module _ {Args : Type 0} where
  unfoldable pub before_tool_call :
      (RegisteredTool → Args → Option PolicyDecision) → Registry → Text → Args → Option Block
  before_tool_call bridge tools name args = elim (get name tools) [
    | none ↦ some (record { reason = units "AGENT_TOOL_UNKNOWN"; terminate = none })
    | some tool ↦ elim (bridge tool args) [
      | none ↦ some (record { reason = units "AGENT_TOOL_POLICY_FAILED"; terminate = some true })
      | some allows ↦ none
      | some (denies code terminate) ↦ some (record { reason = code; terminate = terminate })
    ]
  ]

-- A block of a result's content: a text, or another kind.
pub data Content : Type 0 where
  text : Text → Content
  other : Content

pub record Override (D : Type 0) : Type 0 where
  pub content : Option (List Text)
  pub details : Option D
  pub is_error : Option Bool
  pub terminate : Option Bool

unfoldable pub text_content : List Content → List Text
text_content [] = []
text_content (text s ∷ blocks) = s ∷ text_content blocks
text_content (other ∷ blocks) = text_content blocks

abbrev pub refusal : {D : Type 0} → Text → Override D
refusal code = record {
  content = some (code ∷ []);
  details = none;
  is_error = some true;
  terminate = some true;
}

module _ {Args D : Type 0} where
  unfoldable pub after_tool_call :
      (RegisteredTool → Args → List Text → Option D → Bool → Option (Override D))
      → Registry
      → Text
      → Args
      → List Content
      → Option D
      → Bool
      → Override D
  after_tool_call bridge tools name args content details is_error = elim (get name tools) [
    | none ↦ refusal (units "AGENT_TOOL_UNKNOWN")
    | some tool ↦ elim (bridge tool args (text_content content) details is_error) [
      | none ↦ refusal (units "AGENT_TOOL_POLICY_FAILED")
      | some override ↦ override
    ]
  ]
