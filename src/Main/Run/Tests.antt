-- ===== src/Main/Run/Tests.antt =====
-- A whole run of main of src/wrk.c, and the theorem about it at this input.
use wrk_offloadenginesupport.Prelude.{
  ◌≡◌, refl, true, false, none, some, [], ◌∷◌, Bytes, codes, length,
}
use wrk_offloadenginesupport.Floating.Hundredths.{hundredths}
use wrk_offloadenginesupport.Stats.{Stats}
use wrk_offloadenginesupport.Url.{UrlAnswer}
use wrk_offloadenginesupport.Arguments.{CommandLine, Parsed, parse_args, defaults}
use wrk_offloadenginesupport.Connection.{Thread}
use wrk_offloadenginesupport.Connection.Samples.{thread, empty_stats}
use wrk_offloadenginesupport.Lua.{ok, number}
use wrk_offloadenginesupport.Script.Balance.Setups.{setting}
use wrk_offloadenginesupport.Lua.Simple.{simple}
use wrk_offloadenginesupport.Script.Requests.{ParsedRequest}
use wrk_offloadenginesupport.Main.Run.{Finished, Outside, usage_shown, main}

-- One sample of 3.
abbrev lone : Stats
lone = record empty_stats { count = 1; min = 3; max = 3; buckets = 0 ∷ 0 ∷ 0 ∷ 1 ∷ [] }

abbrev busy : Thread
busy = record thread { complete = 7; bytes = 100 }

abbrev finished : Finished
finished = record { threads = busy ∷ busy ∷ []; latency = lone; requests = lone }

abbrev parser : Bytes → UrlAnswer
parser url = record {
  failed = false;
  parts = record { schema = some (0, 4); host = some (7, 1); port = none; path = some (8, 2) };
}

abbrev whole : Bytes → ParsedRequest
whole s = record { parsed = length s; messages = 1; error = none }

-- Two threads that take a second.
abbrev outside : Outside simple
outside = record {
  urls = parser;
  requests = whole;
  ssl = record { engine = false; initialised = false; ciphers = false; context = true };
  spawned = λ i. true;
  setup = setting simple (codes "x") (number 5);
  run_threads = λ w. finished;
  began = (5, 0);
  ended = (6, 0);
}

abbrev line : CommandLine
line = record { found = []; rest = codes "http://a/b" ∷ [] }

abbrev accepted : Parsed
accepted = record {
  arguments = defaults;
  headers = [];
  url = codes "http://a/b";
  parts = (parser (codes "http://a/b")).parts;
}

usage_run : main hundredths simple 4 outside (record { found = []; rest = [] }) ≡ ok usage_shown
unfolding main parse_args
usage_run = refl
