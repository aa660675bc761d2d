-- ===== src/Hid/Message.antt =====
-- src/transport/hid.rs: `u2f_write` and `u2f_read`, a message split into packets and put together.
use authenticator_rs.Common.{
  ℕ, zero, suc, ◌+◌, ◌-◌, List, ◌++◌, length, drop, ltb, ◌==◌, if◌then◌else◌,
}
use authenticator_rs.Hid.Cmd.{HidCmd}
use authenticator_rs.Hid.Device.{M, ok, panic, stuck, bind}
use authenticator_rs.Hid.Frame.{Buffer, init_read, cont_read, init_write, cont_write}

-- `sequence += 1` on a `u8`.
unfoldable pub next_sequence : ℕ → M ℕ
next_sequence seq d =
    if seq == 255 then if d.overflow_checks then panic else ok 0 d else ok (seq + 1) d

-- `while count < send.len() { … }`
unfoldable pub write_rest : ℕ → ℕ → ℕ → List ℕ → M (Unit {0})
write_rest zero count seq send d = if ltb count (length send) then stuck else ok tt d
write_rest (suc fuel) count seq send d =
    if ltb count (length send)
    then bind (cont_write seq (drop count send) d)
        (λ n d'. bind (next_sequence seq d') (λ seq'. write_rest fuel (count + n) seq' send))
    else ok tt d

-- Each continuation packet holds a byte at least, so `send.len()` rounds are enough.
unfoldable pub u2f_write : ℕ → List ℕ → M (Unit {0})
unfolding write_rest
u2f_write cmd send d = bind (init_write cmd send d) (λ count. write_rest (length send) count 0 send)

-- `while data.len() < data.capacity() { … }`
unfoldable pub read_rest : ℕ → ℕ → ℕ → List ℕ → M (List ℕ)
read_rest zero capacity seq bytes d = if ltb (length bytes) capacity then stuck else ok bytes d
read_rest (suc fuel) capacity seq bytes d =
    if ltb (length bytes) capacity
    then bind (cont_read seq (capacity - length bytes) d) (λ more d'.
      bind (next_sequence seq d') (λ seq'. read_rest fuel capacity seq' (bytes ++ more)))
    else ok bytes d

unfoldable pub finish_read : HidCmd × Buffer → M (HidCmd × List ℕ)
unfolding read_rest
finish_read (cmd, buffer) d =
    bind (read_rest buffer.capacity buffer.capacity 0 buffer.bytes d)
      (λ bytes d'. ok (cmd, bytes) d')

unfoldable pub u2f_read : M (HidCmd × List ℕ)
unfolding finish_read
u2f_read d = bind (init_read d) finish_read
