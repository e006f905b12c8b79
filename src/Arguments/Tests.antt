-- ===== src/Arguments/Tests.antt =====
-- Runs of parse_args of src/wrk.c, and the theorems about it at concrete inputs.
use wrk_offloadenginesupport.Prelude.{◌≡◌, refl, false, none, some, [], ◌∷◌, Bytes, codes}
use wrk_offloadenginesupport.Units.{scan_metric, scan_time}
use wrk_offloadenginesupport.Url.{UrlAnswer, script_parse_url}
use wrk_offloadenginesupport.Arguments.{CommandLine, Parsed, parse_args, defaults}
use wrk_offloadenginesupport.Arguments.Accepted.{IsUsable, parse_args-IsUsable}

-- A parser for the one URL "http://a/b".
abbrev parser : Bytes → UrlAnswer
parser url = record {
  failed = false;
  parts = record { schema = some (0, 4); host = some (7, 1); port = none; path = some (8, 2) };
}

abbrev url : Bytes
url = codes "http://a/b"

abbrev line : CommandLine
line = record {
  found = (b't', codes "4") ∷ (b'H', codes "A: b") ∷ (b'c', codes "1k") ∷ (b'T', codes "2s") ∷ [];
  rest = url ∷ [];
}

abbrev accepted : Parsed
accepted = record {
  arguments = record defaults { threads = 4; connections = 1000; timeout = 2000 };
  headers = codes "A: b" ∷ [];
  url = url;
  parts = (parser url).parts;
}

accepted_run : parse_args parser line ≡ some accepted
unfolding parse_args scan_metric scan_time script_parse_url
accepted_run = refl

-- More threads than connections.
refused_run : parse_args parser (record line { found = (b't', codes "11") ∷ [] }) ≡ none
unfolding parse_args scan_metric script_parse_url
refused_run = refl

no_url_run : parse_args parser (record line { rest = [] }) ≡ none
unfolding parse_args scan_metric scan_time
no_url_run = refl

parse_args-IsUsable_example : IsUsable parser line accepted
parse_args-IsUsable_example = parse_args-IsUsable parser line accepted accepted_run
