-- ===== src/Frame/Crc.antt =====
-- protocol/crc.py: CRC-16/MODBUS.
use Prim.Native.Nat.{bit_xor}
use oig_proxy.Common.{
  ℕ, zero, suc, ◌+◌, ◌*◌, ◌/◌, ◌%◌, ◌<◌, ◌≡◌, refl, List, [], ◌∷◌, arith, nat_beq, codes,
  if◌then◌else◌,
}

abbrev pub Bytes : Type 0
Bytes = List ℕ

reflect_loop : ℕ → ℕ → ℕ → ℕ
reflect_loop zero x out = out
reflect_loop (suc n) x out = reflect_loop n (x / 2) (out * 2 + x % 2)

-- `out << 1 | x & 1` and `x >> 1`, `width` times
unfoldable pub reflect_bits : ℕ → ℕ → ℕ
unfolding reflect_loop
reflect_bits x width = reflect_loop width x 0

-- `_reflect_bits(0x8005, 16) & 0xFFFF`
unfoldable pub poly_r : ℕ
unfolding reflect_bits
poly_r = reflect_bits 0x8005 16 % 65536

-- one round of the loop over the bits
unfoldable pub crc_bit : ℕ → ℕ
unfolding poly_r
crc_bit c = if nat_beq (c % 2) 1 then bit_xor (c / 2) poly_r else c / 2

unfoldable pub crc_bits : ℕ → ℕ → ℕ
unfolding crc_bit
crc_bits zero c = c
crc_bits (suc n) c = crc_bits n (crc_bit c)

-- the entry of the table at n
unfoldable pub crc16_table : ℕ → ℕ
unfolding crc_bits
crc16_table n = crc_bits 8 n % 65536

unfoldable pub crc_byte : ℕ → ℕ → ℕ
unfolding crc16_table
crc_byte crc b = bit_xor (crc / 256) (crc16_table (bit_xor crc b % 256)) % 65536

crc_from : ℕ → Bytes → ℕ
unfolding crc_byte
crc_from crc [] = crc
crc_from crc (b ∷ bs) = crc_from (crc_byte crc b) bs

unfoldable pub crc16_modbus : Bytes → ℕ
unfolding crc_from
crc16_modbus data_bytes = crc_from 0xffff data_bytes

crc_from-lt : (crc : ℕ) (bs : Bytes) → crc < 65536 → crc_from crc bs < 65536
unfolding crc_from crc_byte
crc_from-lt crc [] h = h
crc_from-lt crc (b ∷ bs) h = crc_from-lt (crc_byte crc b) bs (omega arith)

-- The check value of the standard for this code.
check_value : crc16_modbus (codes "123456789") ≡ 0x4b37
unfolding crc16_modbus
check_value = refl

pub crc16_modbus-lt : (bs : Bytes) → crc16_modbus bs < 65536
unfolding crc16_modbus
crc16_modbus-lt bs = crc_from-lt 0xffff bs (omega arith)
