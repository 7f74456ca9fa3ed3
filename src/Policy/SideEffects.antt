-- ===== src/Policy/SideEffects.antt =====
-- `_extract_side_effects` and the tool kinds of policy/abstention.py.
use sesslint.Prelude.{String, ◌==◌, Bool, ◌||◌, ◌&&◌, List, [], ◌∷◌, if◌then◌else◌, mem_text}
use sesslint.Prelude.Text.{lower_in}
use sesslint.Values.{Value, text, null, Fields, get, none?, or_else}
use sesslint.Session.{SessionEvent, Host, str_of, optional, read_only_tool_names}

abbrev pub tool_kinds : List String
tool_kinds = "tool_call" ∷ "tool_use" ∷ "tool_result" ∷ []

abbrev pub is_tool : SessionEvent → Bool
is_tool ev = mem_text ev.kind tool_kinds

abbrev pub is_call : SessionEvent → Bool
is_call ev = ev.kind == "tool_call" || ev.kind == "tool_use"

abbrev pub is_result : SessionEvent → Bool
is_result ev = ev.kind == "tool_result"

-- `a if a is not None else b`.
abbrev or_missing : Value → Value → Value
or_missing a b = if none? a then b else a

-- `str(payload.get("name") or payload.get("tool_name") or "")`. A `SessionEvent` has no attribute
-- `name`, so the source's second look-up gives the empty text.
tool_name : Host → Fields → String
tool_name host payload =
    str_of host (or_else (or_else (get payload "name") (get payload "tool_name")) (text ""))

-- The side effects of an event that declares none.
default_side_effects : Host → SessionEvent → Value
unfolding tool_name
default_side_effects host ev =
    if is_result ev
    then text "none"
    else if is_call ev && lower_in (tool_name host ev.payload) read_only_tool_names
    then text "none"
    else null

declared_side_effects : SessionEvent → Value
declared_side_effects ev =
    or_missing (optional ev.side_effects)
      (or_missing (get ev.payload "side_effects") (get ev.extra_fields "side_effects"))

abbrev text_or_unknown : Host → Value → String
text_or_unknown host v = if none? v then "unknown" else str_of host v

unfoldable pub extract_side_effects : Host → SessionEvent → String
unfolding default_side_effects declared_side_effects
extract_side_effects host ev =
    text_or_unknown host (or_missing (declared_side_effects ev) (default_side_effects host ev))
