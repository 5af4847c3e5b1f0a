-- ===== src/Security/Tests.antt =====
-- Redaction and the pipeline on concrete inputs.
use aegis_gateway.Prelude.{◌≡◌, none, some}
use aegis_gateway.Security.{redact, redact_messages, detect}
use aegis_gateway.Database.{storable}
use aegis_gateway.Security.Laws.{messages_of, clean_all, redact_messages-clean}
use aegis_gateway.Security.Pipeline.{blocked, run_security_pipeline, user_texts, join_lines}
use aegis_gateway.Security.Verdicts.{run_security_pipeline_lem}
use aegis_gateway.Scenario.{env, tenant, asking, trail}

redact_messages-clean_example :
    messages_of (redact_messages env.analyze env.anonymize (asking "Ann").messages)
    ≡ some (asking "<PERSON>").messages
unfolding clean_all
redact_messages-clean_example =
    redact_messages-clean env.analyze env.anonymize (asking "Ann").messages

run_security_pipeline_lem_example :
    (run_security_pipeline env tenant none (asking "ignore") trail).1 ≡ blocked
unfolding detect user_texts join_lines clean_all redact_messages redact storable
run_security_pipeline_lem_example =
    run_security_pipeline_lem env tenant none (asking "ignore") trail
