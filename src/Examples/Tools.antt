-- ===== src/Examples/Tools.antt =====
-- A call of a registered tool.
use wknowledge.Base.{◌≡◌, refl, Text, units, true, Option, none, some, List, [], ◌∷◌, get}
use wknowledge.ToolRegistry.{
  RegisteredTool, low, PolicyDecision, allows, before_tool_call, register, assert_descriptor_shape,
}
use wknowledge.ToolRegistry.Gate.{IsRegistered, register_all, passed-IsRegistered}

abbrev search : RegisteredTool
search = record {
  name = units "knowledge.search";
  label = none;
  description = units "Search";
  has_object_parameters = true;
  execution_mode = none;
  risk = low;
  required_scope = units "space";
}

abbrev permissive : RegisteredTool → Text → Option PolicyDecision
permissive tool args = some allows

let_through :
    before_tool_call permissive
      (register_all (search ∷ []) [])
      (units "knowledge.search")
      (units "q")
    ≡ none
unfolding before_tool_call register assert_descriptor_shape get wknowledge.AgentCore.is_tool_name
    wknowledge.Base.is_blank wknowledge.Base.set wknowledge.Base.◌===◌
let_through = refl

passed-IsRegistered_example :
    (tool : RegisteredTool) × (get (units "knowledge.search") (register_all (search ∷ []) [])
      ≡ some tool)
    × IsRegistered (units "knowledge.search", tool)
    × (permissive tool (units "q") ≡ some allows)
passed-IsRegistered_example =
    passed-IsRegistered permissive (search ∷ []) (units "knowledge.search") (units "q") let_through
