-- ===== src/Domain/Ids.antt =====
-- src/domain/ids.rs: the base32hex encoding of bytes, and src/scheduler/executor.rs, the ids of task
-- runs that are made with it.
pub mod Decode
pub mod Handler
pub mod Digits
pub mod Steps
pub mod RoundTrip
use Prim.Native.Nat.{ℕ, zero, suc, ◌+◌, ◌-◌, ◌*◌, ◌/◌, ◌%◌, ◌^◌}
use Prim.Native.Char.{code}
use Prim.Native.String.{String, [], ◌∷◌}
use mathlib.Core.List.{List, ◌++◌}
use aegis_fs.Prelude.{ltb, leb, if◌then◌else◌}
use aegis_fs.Prelude.Text.{◌<>◌}

-- The bytes of a character: UTF-8.
abbrev utf8 : ℕ → List ℕ
utf8 c =
    if ltb c 0x80
    then List.◌∷◌ c List.[]
    else if ltb c 0x800
    then List.◌∷◌ (0xc0 + c / 64) (List.◌∷◌ (0x80 + c % 64) List.[])
    else if ltb c 0x10000
    then List.◌∷◌ (0xe0 + c / 4096)
        (List.◌∷◌ (0x80 + c / 64 % 64) (List.◌∷◌ (0x80 + c % 64) List.[]))
    else List.◌∷◌ (0xf0 + c / 262144) (
        List.◌∷◌ (0x80 + c / 4096 % 64)
          (List.◌∷◌ (0x80 + c / 64 % 64) (List.◌∷◌ (0x80 + c % 64) List.[])))

unfoldable pub as_bytes : String → List ℕ
as_bytes [] = List.[]
as_bytes (c ∷ s) = utf8 (code c) ++ as_bytes s

-- `B32HEX`, indexed.
abbrev pub b32hex : ℕ → String
b32hex i = Prim.Native.String.slice "0123456789abcdefghijklmnopqrstuv" i (i + 1)

-- The inner `while bits >= 5`. There are 12 bits at most, so two rounds; the fuel is three.
unfoldable pub emit : ℕ → (buffer bits : ℕ) → String → ℕ × String
emit zero buffer bits out = (bits, out)
emit (suc fuel) buffer bits out =
    let more = emit fuel buffer (bits - 5) (out <> b32hex (buffer / 2 ^ (bits - 5) % 32)) in
    if leb 5 bits then more else (bits, out)

-- The loop over the bytes, with the flush of the last bits. `buffer` is a `u64`, whose high bits the
-- shift drops.
unfoldable pub encode_from : List ℕ → (buffer bits : ℕ) → String → String
unfolding emit
encode_from List.[] buffer bits out =
    if ltb 0 bits then out <> b32hex (buffer * 2 ^ (5 - bits) % 2 ^ 64 % 32) else out
encode_from (List.◌∷◌ byte src) buffer bits out =
    let buffer' = buffer * 256 % 2 ^ 64 + byte in
    let (bits', out') = emit 3 buffer' (bits + 8) out in encode_from src buffer' bits' out'

unfoldable pub encode_base32hex : List ℕ → String
unfolding encode_from
encode_base32hex src = encode_from src 0 0 ""

unfoldable pub task_run_id : (run_id task_name : String) → String
unfolding encode_base32hex as_bytes
task_run_id run_id task_name = "tr_" <> encode_base32hex (as_bytes (run_id <> "::" <> task_name))
