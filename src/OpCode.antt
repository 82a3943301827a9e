-- ===== src/OpCode.antt =====
-- `enum class OpCode : uint8_t` of libbsv_cost_estimator/include/bsv/cost_estimator.h. A value may be
-- any byte, so those with no enumerator have a constructor of their own.
use bsv_miner_op_code_calc.Common.{ℕ, ◌==◌, if◌then◌else◌}

pub data OpCode : Type 0 where
  op_dup op_swap op_pick op_roll op_rot : OpCode
  op_cat op_split op_num2bin op_bin2num : OpCode
  op_sha1 op_sha256 op_hash160 op_hash256 op_ripemd160 : OpCode
  op_checksig op_checksigverify op_checkmultisig : OpCode
  op_if op_else op_endif : OpCode
  op_0 op_1 op_pushdata1 op_pushdata2 op_pushdata4 : OpCode
  byte : ℕ → OpCode

-- The underlying value.
unfoldable pub to_byte : OpCode → ℕ
to_byte op_dup = 0x76
to_byte op_swap = 0x7c
to_byte op_pick = 0x79
to_byte op_roll = 0x7a
to_byte op_rot = 0x7b
to_byte op_cat = 0x7e
to_byte op_split = 0x7f
to_byte op_num2bin = 0x80
to_byte op_bin2num = 0x81
to_byte op_sha1 = 0xa7
to_byte op_sha256 = 0xa8
to_byte op_hash160 = 0xa9
to_byte op_hash256 = 0xaa
to_byte op_ripemd160 = 0xa6
to_byte op_checksig = 0xac
to_byte op_checksigverify = 0xad
to_byte op_checkmultisig = 0xae
to_byte op_if = 0x63
to_byte op_else = 0x67
to_byte op_endif = 0x68
to_byte op_0 = 0x00
to_byte op_1 = 0x51
to_byte op_pushdata1 = 0x4c
to_byte op_pushdata2 = 0x4d
to_byte op_pushdata4 = 0x4e
to_byte (byte n) = n

-- `static_cast<OpCode>(b)`.
unfoldable pub of_byte : ℕ → OpCode
of_byte b =
    if b == 0x76
    then op_dup
    else if b == 0x7c
    then op_swap
    else if b == 0x79
    then op_pick
    else if b == 0x7a
    then op_roll
    else if b == 0x7b
    then op_rot
    else if b == 0x7e
    then op_cat
    else if b == 0x7f
    then op_split
    else if b == 0x80
    then op_num2bin
    else if b == 0x81
    then op_bin2num
    else if b == 0xa7
    then op_sha1
    else if b == 0xa8
    then op_sha256
    else if b == 0xa9
    then op_hash160
    else if b == 0xaa
    then op_hash256
    else if b == 0xa6
    then op_ripemd160
    else if b == 0xac
    then op_checksig
    else if b == 0xad
    then op_checksigverify
    else if b == 0xae
    then op_checkmultisig
    else if b == 0x63
    then op_if
    else if b == 0x67
    then op_else
    else if b == 0x68
    then op_endif
    else if b == 0x00
    then op_0
    else if b == 0x51
    then op_1
    else if b == 0x4c
    then op_pushdata1
    else if b == 0x4d
    then op_pushdata2
    else if b == 0x4e
    then op_pushdata4
    else byte b
