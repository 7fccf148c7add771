-- ===== src/Mirage/Conn/Buildlog.antt =====
-- service.go, persistBuildlog: a report is stored through a Ghost's seed, and a failure is only logged.
use edgectl.Prelude.{
  ℕ, ◌++◌, if◌then◌else◌, Text, codes, is_empty, trim_space, decimal, Option, none, some,
}
use edgectl.Session.Command.{Json}
use edgectl.Session.Report.{Report}
use edgectl.Mirage.GhostClient.{ControlWire, persist}

unfoldable pub buildlog_key : Text → Text → ℕ → Text
buildlog_key key_prefix kind now =
    (if is_empty (trim_space key_prefix) then codes "local/buildlogs/" else trim_space key_prefix)
    ++ (trim_space kind ++ (codes "/" ++ decimal now))

-- The store is the address of a Ghost's admin endpoint and the seed's selector; `marshal` is encoding/json
-- on the fields of the report that are kept.
unfoldable pub persist_buildlog :
    {W : Type 0}
    → ControlWire W
    → Json
    → (Report → Text)
    → Option (Text × Text)
    → Text
    → ℕ
    → Report
    → W
    → W
persist_buildlog wire json marshal none key_prefix now report w = w
persist_buildlog wire json marshal (some (addr, selector)) key_prefix now report w =
    (persist wire addr json selector (buildlog_key key_prefix (codes "event_report") now)
      (marshal report) w).0
