-- ===== src/Main/Start/Tests.antt =====
-- Runs of the choice of the transport in main of src/wrk.c.
use wrk_offloadenginesupport.Prelude.{◌≡◌, refl, true, false, some, codes}
use wrk_offloadenginesupport.Arguments.{defaults}
use wrk_offloadenginesupport.Lua.{raised}
use wrk_offloadenginesupport.Net.Context.{SslAnswers, ssl_init, ssl_offload_init}
use wrk_offloadenginesupport.Script.Histograms.{text_eq}
use wrk_offloadenginesupport.Main.Start.{choose_transport, is_https}

abbrev no_engine : SslAnswers
no_engine = record { engine = false; initialised = false; ciphers = false; context = true }

-- An engine that is not there ends the program.
no_engine_run :
    choose_transport ssl_init
      (record defaults { use_offload = true; engine = some (codes "x") })
      (codes "https")
      no_engine
    ≡ raised
unfolding choose_transport is_https text_eq ssl_init ssl_offload_init
no_engine_run = refl
