-- ===== src/Url/Tests.antt =====
-- Runs of copy_url_part of src/wrk.c and script_parse_url of src/script.c.
use wrk_offloadenginesupport.Prelude.{◌≡◌, refl, false, none, some, codes}
use wrk_offloadenginesupport.Url.{copy_url_part, script_parse_url}

host_run : copy_url_part (codes "http://ab/c") (some (7, 2)) ≡ some (codes "ab")
unfolding copy_url_part
host_run = refl

no_host_run :
    script_parse_url (record {
      failed = false;
      parts = record { schema = some (0, 4); host = none; port = none; path = none };
    })
    ≡ false
unfolding script_parse_url
no_host_run = refl
