-- ===== src/Command/Runner.antt =====
-- imageprocessor/processorcommand/runner.go
use mandible.Base.{String, ltb, List, ◌∷◌, none, some, if◌then◌else◌}
use mandible.Base.Result.{ok, err, Action, ⊤}
use mandible.Host.{Host, Machine}

-- A command that has not ended after sixty seconds is killed.
unfoldable pub run_processor_command : Machine → String → List String → Action Host ⊤
run_processor_command m command args h =
    let e = m.exec command args h.disk in
    let h' : Host = record {
      disk = e.disk;
      ran = record { command = command; args = args } ∷ h.ran;
    } in
    (
      if ltb 60 e.seconds
          then err "Command timed out"
          else elim e.wait_error [ none ↦ ok tt | some reason ↦ err reason ],
      h',
    )
