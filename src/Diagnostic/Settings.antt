-- ===== src/Diagnostic/Settings.antt =====
-- What the decoders of ESP_AKS/src/e22_diagnostic.cpp write of the registers. REG2's frequency is a float and is left out.
use tufan_aks.Base.{ℕ, ◌/◌, ◌%◌, ◌==◌, if◌then◌else◌, List, [], ◌∷◌, ◌++◌}
use tufan_aks.Base.Decimal.{codes, print_unsigned}
use tufan_aks.Base.Hex.{print_hex}
use tufan_aks.E22.{RegValues}

abbrev pub uart_baud_text : ℕ → List ℕ
uart_baud_text n =
    if n == 0
    then codes "1200"
    else if n == 1
    then codes "2400"
    else if n == 2
    then codes "4800"
    else if n == 3
    then codes "9600"
    else if n == 4
    then codes "19200"
    else if n == 5
    then codes "38400"
    else if n == 6
    then codes "57600"
    else if n == 7
    then codes "115200"
    else codes "?"

abbrev pub parity_text : ℕ → List ℕ
parity_text p = if p % 4 == 1 then codes "8O1" else if p % 4 == 2 then codes "8E1" else codes "8N1"

abbrev pub air_rate_text : ℕ → List ℕ
air_rate_text n =
    if n == 0
    then codes "0.3 kbps"
    else if n == 1
    then codes "1.2 kbps"
    else if n == 2
    then codes "2.4 kbps"
    else if n == 3
    then codes "4.8 kbps"
    else if n == 4
    then codes "9.6 kbps"
    else if n == 5
    then codes "19.2 kbps"
    else if n == 6
    then codes "38.4 kbps"
    else codes "62.5 kbps"

abbrev pub sub_packet_text : ℕ → List ℕ
sub_packet_text s =
    if s % 4 == 0
    then codes "240 B"
    else if s % 4 == 1
    then codes "128 B"
    else if s % 4 == 2
    then codes "64 B"
    else codes "32 B"

abbrev pub tx_power_text : ℕ → List ℕ
tx_power_text p =
    if p % 4 == 0
    then codes "en yuksek (T30D: 30 dBm)"
    else if p % 4 == 1
    then codes "orta-yuksek"
    else if p % 4 == 2
    then codes "orta-dusuk"
    else codes "en dusuk (~10 dBm)"

-- `set` if the bit above `below` is set, with `below` a power of two
abbrev pub flag_text : ℕ → ℕ → List ℕ → List ℕ → List ℕ
flag_text reg below set clear = if reg / below % 2 == 1 then set else clear

abbrev pub decode_reg0 : ℕ → List ℕ
decode_reg0 reg0 =
    codes "  REG0  = 0x"
    ++ (print_hex reg0
        ++ (codes "  ->  UART: "
            ++ (uart_baud_text (reg0 / 32 % 8)
                ++ (codes " bps | parity: "
                    ++ (parity_text (reg0 / 8 % 4)
                        ++ (codes " | air rate: " ++ air_rate_text (reg0 % 8)))))))

abbrev pub decode_reg1 : ℕ → List ℕ
decode_reg1 reg1 =
    codes "  REG1  = 0x"
    ++ (print_hex reg1
        ++ (codes "  ->  alt-paket: "
            ++ (sub_packet_text (reg1 / 64 % 4)
                ++ (codes " | RSSI ortam gurultusu: "
                    ++ (flag_text reg1 32 (codes "acik") (codes "kapali")
                        ++ (codes " | TX gucu: " ++ tx_power_text (reg1 % 4)))))))

-- Up to the frequency.
abbrev pub decode_reg2 : ℕ → List ℕ
decode_reg2 reg2 =
    codes "  REG2  = 0x" ++ (print_hex reg2 ++ (codes "  ->  kanal " ++ print_unsigned reg2))

abbrev pub decode_reg3 : ℕ → List ℕ
decode_reg3 reg3 =
    codes "  REG3  = 0x"
    ++ (print_hex reg3
        ++ (codes "  ->  RSSI byte: "
            ++ (flag_text reg3 128 (codes "ekleniyor") (codes "eklenmiyor")
                ++ (codes " | mod: "
                    ++ (flag_text reg3 64 (codes "fixed") (codes "transparan")
                        ++ (codes " | role: "
                            ++ (flag_text reg3 32 (codes "acik") (codes "kapali")
                                ++ (codes " | LBT: "
                                    ++ flag_text reg3 16 (codes "acik") (codes "kapali")))))))))

-- The lines of the four setting registers.
pub settings_lines : RegValues → List (List ℕ)
settings_lines r =
    decode_reg0 r.reg0 ∷ decode_reg1 r.reg1 ∷ decode_reg2 r.reg2 ∷ decode_reg3 r.reg3 ∷ []
