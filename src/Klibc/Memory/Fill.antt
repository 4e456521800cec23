-- ===== src/Klibc/Memory/Fill.antt =====
-- What `memset` and `memset16` leave in memory.
use aeon_486_os.Base.{ℕ, zero, suc, ◌+◌, ◌-◌, ◌*◌, ◌/◌, ◌%◌, ◌≡◌}
use aeon_486_os.Base.{arith, ◌==◌, ltb, leb, ◌&&◌, if◌then◌else◌}
use aeon_486_os.Klibc.Memory.{Memory, store, store16, memset, memset16}

-- `memset` fills `num` bytes from `p` on with the low byte of the value, and changes no other.
pub memset_lem :
    (mem : Memory) (p value num x : ℕ)
    → memset mem p value num x ≡ (if leb p x && ltb x (p + num) then value % 256 else mem x)
unfolding memset store
memset_lem mem p value zero x = ground arith
memset_lem mem p value (suc num) x =
    ground (arith, memset_lem (store mem p (value % 256)) (p + 1) value num x)

-- `memset16` fills `num` halfwords from `p` on with the two bytes of the value, low byte first, and
-- changes no other byte.
pub memset16_lem :
    (mem : Memory) (p value num x : ℕ)
    → memset16 mem p value num x ≡ (
        if leb p x && ltb x (p + num * 2)
        then if (x - p) % 2 == 0 then value % 256 else value / 256 % 256
        else mem x)
unfolding memset16 store16 store
memset16_lem mem p value zero x = ground arith
memset16_lem mem p value (suc num) x =
    ground (arith, memset16_lem (store16 mem p value) (p + 2) value num x)
