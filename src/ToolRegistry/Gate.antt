-- ===== src/ToolRegistry/Gate.antt =====
-- Which calls of tools the hooks let through.
use wknowledge.Base.{
  ◌≡◌, refl, Text, units, true, Option, none, some, List, [], ◌∷◌, Result, ok, err, ok-injective,
  >>=-eq-ok, Option-cases, inl, inr, All, All-set, All-get, get, set, is_some, reject_if, subst,
}
use wknowledge.ToolRegistry.{
  RegisteredTool, Registry, PolicyDecision, allows, denies, Block, assert_descriptor_shape,
  register, before_tool_call, agent_tool_duplicate, ToolError,
}

abbrev pub IsRegistered : Text × RegisteredTool → Type 0
IsRegistered e = (e.1.name ≡ e.0) × (assert_descriptor_shape e.1 ≡ ok tt)

abbrev pub settled : Registry → Result ToolError Registry → Registry
settled tools (ok tools') = tools'
settled tools (err e) = tools

-- A registry after some registrations; those that throw leave it as it was.
abbrev pub register_all : List RegisteredTool → Registry → Registry
register_all [] tools = tools
register_all (tool ∷ more) tools = register_all more (settled tools (register tool tools))

register-All :
    (tool : RegisteredTool) (tools tools' : Registry)
    → All IsRegistered tools
    → register tool tools ≡ ok tools'
    → All IsRegistered tools'
unfolding register
register-All tool tools tools' valid h =
    let (shaped, good, rest) = >>=-eq-ok (assert_descriptor_shape tool) _ h in
    let (_, _, done) =
      >>=-eq-ok (reject_if (is_some (get tool.name tools)) agent_tool_duplicate) _ rest in
    let e = ok-injective (set tool.name tool tools) tools' done in
    subst (All IsRegistered) e (All-set IsRegistered tool.name tool tools (refl, good) valid)

register_all-All :
    (more : List RegisteredTool) (tools : Registry)
    → All IsRegistered tools
    → All IsRegistered (register_all more tools)
register_all-All [] tools valid = valid
register_all-All (tool ∷ more) tools valid =
    register_all-All more _
      (settled-All (register tool tools) (λ tools' e. register-All tool tools tools' valid e))
  where
    settled-All :
        (r : Result ToolError Registry)
        → ((tools' : Registry) → r ≡ ok tools' → All IsRegistered tools')
        → All IsRegistered (settled tools r)
    settled-All (ok tools') h = h tools' refl
    settled-All (err e) h = valid

-- Whatever was registered before, a call that the hook lets through is of a registered tool of that
-- name whose descriptor has the required shape, and the policy bridge has answered that it allows this
-- call of this tool: an unknown tool, a denial and a bridge that throws all block.
pub passed-IsRegistered :
    {Args : Type 0} (bridge : RegisteredTool → Args → Option PolicyDecision)
    (registered : List RegisteredTool) (name : Text) (args : Args)
    → before_tool_call bridge (register_all registered []) name args ≡ none
    → (tool : RegisteredTool) × (get name (register_all registered []) ≡ some tool)
      × IsRegistered (name, tool)
      × (bridge tool args ≡ some allows)
unfolding before_tool_call
passed-IsRegistered bridge registered name args h =
    elim (Option-cases (get name (register_all registered []))) [
      | inl unknown ↦ let e = rw (before_tool_call, unknown) at h in cc e
      | inr (tool, found) ↦ (
        tool,
        found,
        All-get IsRegistered name (register_all registered []) (register_all-All registered [] tt)
            found,
        allowed tool (bridge tool args) refl (rw (before_tool_call, found) at h),
      )
    ]
  where
    allowed :
        (tool : RegisteredTool) (answer : Option PolicyDecision)
        → bridge tool args ≡ answer
        → (elim (bridge tool args) as (λ _. Option Block) [
          | none ↦
              some (record { reason = units "AGENT_TOOL_POLICY_FAILED"; terminate = some true })
          | some allows ↦ none
          | some (denies code terminate) ↦ some (record { reason = code; terminate = terminate })
        ])
          ≡ none
        → bridge tool args ≡ some allows
    allowed tool none e g = let bad = rw e at g in cc bad
    allowed tool (some allows) e g = e
    allowed tool (some (denies code terminate)) e g = let bad = rw e at g in cc bad
