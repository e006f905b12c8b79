-- ===== src/Url.antt =====
-- src/wrk.c, copy_url_part, and src/script.c, script_parse_url. The parser of URLs is
-- http_parser_parse_url, whose answer is an argument.
mod Tests
use wrk_offloadenginesupport.Prelude.{
  ℕ, Bool, true, false, not, ◌&&◌, Option, none, some, Bytes, take, drop, if◌then◌else◌,
}

-- `struct http_parser_url`: for each field whose bit is set, its offset and its length.
pub record UrlParts : Type 0 where
  pub schema : Option (ℕ × ℕ)
  pub host : Option (ℕ × ℕ)
  pub port : Option (ℕ × ℕ)
  pub path : Option (ℕ × ℕ)

-- What http_parser_parse_url answers: whether it fails, and what it has filled in.
pub record UrlAnswer : Type 0 where
  pub failed : Bool
  pub parts : UrlParts

-- `parts->field_set & (1 << field)`
abbrev pub is_set : Option (ℕ × ℕ) → Bool
is_set none = false
is_set (some p) = true

-- `len` bytes at `&url[off]`.
abbrev pub part_of : Bytes → ℕ × ℕ → Bytes
part_of url (off, len) = take len (drop off url)

pub copy_url_part : Bytes → Option (ℕ × ℕ) → Option Bytes
copy_url_part url none = none
copy_url_part url (some p) = some (part_of url p)

unfoldable pub script_parse_url : UrlAnswer → Bool
script_parse_url a =
    if not a.failed
    then if not (is_set a.parts.schema)
      then false
      else if not (is_set a.parts.host)
      then false
      else true
    else false
