-- ===== src/Finding/ContentFree.antt =====
-- `enforce_content_free_text` of finding.py, with its patterns. What Python's `re` finds and the categories
-- of `unicodedata` are parameters; what is raised is named by its message.
use Prim.Native.Char.{Char, code}
use sesslint.Prelude.{
  ◌≡◌, String, ◌==◌, Bool, true, false, ◌&&◌, ◌||◌, not, Option, none, some, if◌then◌else◌, ltb,
  arith,
}

-- A regular expression: a pattern with no alternatives at its top, the flag `i` over one (`(?i)` at its
-- start, or `(?i:...)`), and two alternatives (`|`).
pub data Regex : Type 0 where
  pattern : String → Regex
  ignore_case : Regex → Regex
  either : Regex → Regex → Regex

abbrev control_char_pattern : Regex
control_char_pattern = pattern "[\\r\\n\\t\\x00-\\x1f\\x7f]"

abbrev email_pattern : Regex
email_pattern = pattern "\\b[A-Za-z0-9._%+-]+@[A-Za-z0-9.-]+\\.[A-Za-z]{2,}\\b"

abbrev private_key_pattern : Regex
private_key_pattern = pattern "-----BEGIN [A-Z ]+KEY-----"

abbrev bearer_pattern : Regex
bearer_pattern = pattern "\\bBearer\\s+[A-Za-z0-9_\\-\\.]{10,}\\b"

abbrev api_key_pattern : Regex
api_key_pattern = pattern "\\b(?:sk|ghp|gho|glpat|slack_token)[_\\-][A-Za-z0-9_\\-]{16,}\\b"

abbrev credential_assign_pattern : Regex
credential_assign_pattern =
    ignore_case (pattern "\\b(?:password|passwd|api_key|secret|token)\\s*[:=]\\s*\\S+")

-- `_CONTENT_REJECT_PATTERN`, written out again as there.
unfoldable pub content_reject_pattern : Regex
content_reject_pattern = either (pattern "[\\r\\n\\t\\x00-\\x1f\\x7f]") (
    either (pattern "\\b[A-Za-z0-9._%+-]+@[A-Za-z0-9.-]+\\.[A-Za-z]{2,}\\b") (
      either (pattern "-----BEGIN [A-Z ]+KEY-----") (
        either (pattern "\\bBearer\\s+[A-Za-z0-9_\\-\\.]{10,}\\b") (
          either (pattern "\\b(?:sk|ghp|gho|glpat|slack_token)[_\\-][A-Za-z0-9_\\-]{16,}\\b") (
            ignore_case (pattern "\\b(?:password|passwd|api_key|secret|token)\\s*[:=]\\s*\\S+"))))))

-- `pattern.search(text) is not None`, and `unicodedata.category`.
pub record Python : Type 0 where
  pub search : Regex → String → Bool
  pub category : Char → String

pub data Forbidden : Type 0 where
  control_char unicode_char email_address private_key_block : Forbidden
  bearer_token api_key_text credential_assignment : Forbidden

-- `text.isascii()`.
unfoldable pub is_ascii : String → Bool
is_ascii String.[] = true
is_ascii (String.◌∷◌ c s) = ltb (code c) 128 && is_ascii s

abbrev dangerous : String → Bool
dangerous cat = cat == "Cc" || (cat == "Cf" || (cat == "Zl" || cat == "Zp"))

-- The loop over the characters of a text that is not ASCII.
unfoldable pub has_dangerous : Python → String → Bool
has_dangerous py String.[] = false
has_dangerous py (String.◌∷◌ c s) = dangerous (py.category c) || has_dangerous py s

-- The checks in their order, past the fast path.
unfoldable pub enforce_ordered : Python → String → Option Forbidden
unfolding is_ascii has_dangerous
enforce_ordered py s =
    if py.search control_char_pattern s
    then some control_char
    else if not (is_ascii s) && has_dangerous py s
    then some unicode_char
    else if py.search email_pattern s
    then some email_address
    else if py.search private_key_pattern s
    then some private_key_block
    else if py.search bearer_pattern s
    then some bearer_token
    else if py.search api_key_pattern s
    then some api_key_text
    else if py.search credential_assign_pattern s
    then some credential_assignment
    else none

-- `none` is a return, `some e` a `FindingError`.
unfoldable pub enforce_content_free_text : Python → String → Option Forbidden
unfolding content_reject_pattern enforce_ordered
enforce_content_free_text py s =
    if not (py.search content_reject_pattern s) && is_ascii s then none else enforce_ordered py s

-- If `A|B` is found in a text exactly where `A` or `B` is, as Python documents it, then the fast path by the combined
-- pattern never changes the result: it is that of the ordered checks, with their order of errors.
pub enforce_content_free_text-eq-enforce_ordered :
    (py : Python) (s : String)
    → ((r q : Regex) (t : String) → py.search (either r q) t ≡ (py.search r t || py.search q t))
    → enforce_content_free_text py s ≡ enforce_ordered py s
unfolding enforce_content_free_text enforce_ordered content_reject_pattern
enforce_content_free_text-eq-enforce_ordered py s either_side =
    let by_key = either_side api_key_pattern credential_assign_pattern s in
    let by_bearer =
      either_side bearer_pattern (either api_key_pattern credential_assign_pattern) s in
    let by_block =
      either_side private_key_pattern
        (either bearer_pattern (either api_key_pattern credential_assign_pattern)) s in
    let by_email =
      either_side email_pattern
        (either private_key_pattern
          (either bearer_pattern (either api_key_pattern credential_assign_pattern)))
        s in
    let by_control =
      either_side control_char_pattern
        (either email_pattern (
          either private_key_pattern
            (either bearer_pattern (either api_key_pattern credential_assign_pattern))))
        s in
    ground arith
