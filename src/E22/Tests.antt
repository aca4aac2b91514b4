-- ===== src/E22/Tests.antt =====
-- The register commands on the contract's registers.
use tufan_aks.Base.{ℕ, ◌≡◌, arith, false, List, [], ◌∷◌, ◌++◌, some}
use tufan_aks.E22.{
  RegValues, contract_regs, build_write_command, parse_reg_response, is_error_response, acknowledge,
  parse-build,
}

parse-build_example :
    (command : List ℕ) × (build_write_command 12 contract_regs ≡ some command)
    × (parse_reg_response (acknowledge command ++ (0 ∷ [])) ≡ some contract_regs)
    × (is_error_response (acknowledge command ++ (0 ∷ [])) ≡ false)
parse-build_example = parse-build 12 contract_regs (0 ∷ []) (omega arith)

abbrev detuned : RegValues
detuned = record contract_regs { reg2 = 0x12 }
