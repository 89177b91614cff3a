-- ===== src/ByteArray/Tape.antt =====
-- What a ByteArray promises: one sequence of bytes with a position.
use phase.Base.{ℕ, ◌+◌, ◌-◌, Option, none, some, List, length, take, drop, ltb, if◌then◌else◌}
use phase.ByteArray.Memory.{splice}
use phase.ByteArray.State.{ByteArray}
use phase.ByteArray.Valid.{contents}

pub record Tape : Type 0 where
  pub bytes : List ℕ
  pub position : ℕ

-- A write replaces the bytes behind the position and goes on past the end.
unfoldable pub put : Tape → List ℕ → Tape
put t buf = record { bytes = splice t.position buf t.bytes; position = t.position + length buf }

-- A read past the end fails; any other moves the position.
unfoldable pub get : Tape → ℕ → Option (List ℕ × Tape)
get t n =
    if ltb (length t.bytes - t.position) n
    then none
    else some (take n (drop t.position t.bytes), record t { position = t.position + n })

-- The tape that an array stands for.
unfoldable pub view : ByteArray → Tape
unfolding contents
view b = record { bytes = contents b; position = b.position }
