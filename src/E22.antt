-- ===== src/E22.antt =====
-- The register commands of the radio module, ESP_AKS/lib/E22Config/E22Config.cpp. A buffer that is
-- written is the result, `none` where the source returns 0 because the caller's buffer is too
-- small (its size is the first argument); a null pointer does not occur.
mod Tests
use tufan_aks.Base.{
  ℕ, ◌+◌, ◌==◌, ◌≡◌, ◌≤◌, ◌↔◌, refl, arith, leb, ltb, Bool, true, false, not, ◌&&◌, ◌||◌,
  if◌then◌else◌, List, [], ◌∷◌, ◌++◌, Option, none, some, get_or, length, subst,
}

pub record RegValues : Type 0 where
  pub addh : ℕ  -- uint8, as every register
  pub addl : ℕ
  pub netid : ℕ
  pub reg0 : ℕ
  pub reg1 : ℕ
  pub reg2 : ℕ
  pub reg3 : ℕ

abbrev pub contract_regs : RegValues
contract_regs = record {
  addh = 0;
  addl = 0;
  netid = 0;
  reg0 = 0x64;
  reg1 = 0;
  reg2 = 0x17;
  reg3 = 0;
}

abbrev pub crypt_h : ℕ
crypt_h = 0x5A

abbrev pub crypt_l : ℕ
crypt_l = 0x3C

pub build_read_all_command : ℕ → Option (List ℕ)
build_read_all_command size = if ltb size 3 then none else some (0xC1 ∷ 0x00 ∷ 0x09 ∷ [])

pub build_write_command : ℕ → RegValues → Option (List ℕ)
build_write_command size r =
    if ltb size 12
    then none
    else some (
        0xC0 ∷ 0x00 ∷ 0x09 ∷ r.addh ∷ r.addl ∷ r.netid ∷ r.reg0 ∷ r.reg1 ∷ r.reg2 ∷ r.reg3 ∷ crypt_h
        ∷ crypt_l ∷ [])

pub build_write_crypt_temp_command : ℕ → Option (List ℕ)
build_write_crypt_temp_command size =
    if ltb size 5 then none else some (0xC2 ∷ 0x07 ∷ 0x02 ∷ crypt_h ∷ crypt_l ∷ [])

pub is_error_response : List ℕ → Bool
is_error_response resp =
    if ltb (length resp) 3
    then false
    else (get_or resp 0 0 == 0xFF) && (get_or resp 1 0 == 0xFF) && (get_or resp 2 0 == 0xFF)

unfoldable pub parse_reg_response : List ℕ → Option RegValues
parse_reg_response resp =
    if ltb (length resp) 12
    then none
    else if not (get_or resp 0 0 == 0xC1)
    then none
    else if not (get_or resp 1 0 == 0x00)
    then none
    else if not (get_or resp 2 0 == 0x09)
    then none
    else some (record {
      addh = get_or resp 3 0;
      addl = get_or resp 4 0;
      netid = get_or resp 5 0;
      reg0 = get_or resp 6 0;
      reg1 = get_or resp 7 0;
      reg2 = get_or resp 8 0;
      reg3 = get_or resp 9 0;
    })

pub regs_equal : RegValues → RegValues → Bool
regs_equal a b =
    (a.addh == b.addh)
    && (a.addl == b.addl)
    && (a.netid == b.netid)
    && (a.reg0 == b.reg0)
    && (a.reg1 == b.reg1)
    && (a.reg2 == b.reg2)
    && (a.reg3 == b.reg3)

-- The module's acknowledgement: the command's bytes with the read code in front.
abbrev pub acknowledge : List ℕ → List ℕ
acknowledge [] = []
acknowledge (x ∷ xs) = 0xC1 ∷ xs

-- A write command of at least twelve bytes is built for any registers, and what the module echoes with
-- the read code in front, whatever follows it, is parsed to the registers that were written; it is
-- not taken for an error.
pub parse-build :
    (size : ℕ) (r : RegValues) (rest : List ℕ)
    → 12 ≤ size
    → (command : List ℕ) × (build_write_command size r ≡ some command)
      × (parse_reg_response (acknowledge command ++ rest) ≡ some r)
      × (is_error_response (acknowledge command ++ rest) ≡ false)
unfolding build_write_command parse_reg_response is_error_response
parse-build size r rest h = (
  0xC0 ∷ 0x00 ∷ 0x09 ∷ r.addh ∷ r.addl ∷ r.netid ∷ r.reg0 ∷ r.reg1 ∷ r.reg2 ∷ r.reg3 ∷ crypt_h
      ∷ crypt_l ∷ [],
  ground arith,
  ground arith,
  ground arith,
)

pub parse-error :
    (resp : List ℕ) (r : RegValues)
    → parse_reg_response resp ≡ some r
    → is_error_response resp ≡ false
unfolding parse_reg_response is_error_response
parse-error resp r h = ground arith

-- The comparison of two register sets that decides whether the module must be written holds exactly if
-- the sets are equal.
pub regs_equal_iff : (a b : RegValues) → (regs_equal a b ≡ true) ↔ (a ≡ b)
unfolding regs_equal
regs_equal_iff a b = (λ h. ground arith, λ e. subst (λ c. regs_equal a c ≡ true) e self)
  where
    self : regs_equal a a ≡ true
    self = ground arith
