-- ===== src/Diagnostic/Session.antt =====
-- The whole run of ESP_AKS/src/e22_diagnostic.cpp as the calls that reach the radio module.
use tufan_aks.Base.{List, [], ◌∷◌}
use tufan_aks.Lora.{read_command}
use tufan_aks.Diagnostic.{m0_pin, m1_pin, ping_message}
use tufan_aks.Diagnostic.Wait.{DiagCall, level, written}

-- The calls of a run: configuration mode, the read command, normal mode, and a message.
abbrev pub diag_calls : List DiagCall
diag_calls =
    level m0_pin 0
    ∷ level m1_pin 1
    ∷ written read_command
    ∷ level m0_pin 0
    ∷ level m1_pin 0
    ∷ written ping_message
    ∷ []
