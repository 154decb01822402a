-- ===== src/Lock/Tests.antt =====
-- Concrete runs of the lock.
use vmwgfx.Prelude.{◌<◌, refl, arith}
use vmwgfx.Lock.{pos, Lock, init, try_read, try_write, read_unlock}
use vmwgfx.Lock.Exclusion.{
  System, Step, read, read_done, here, next, start, IsExclusive, Reach-IsExclusive,
}
use vmwgfx.Lock.Waiting.{to_write, Step-wakes}

-- one reader, and a task that waits to write
abbrev one_reader : System
one_reader = record start { lock = record init { rw = pos 1 }; readers = 1 }

first_read : Step start one_reader
unfolding try_read init
first_read = read refl refl

Reach-IsExclusive_example : IsExclusive one_reader
Reach-IsExclusive_example = Reach-IsExclusive one_reader (next here first_read)

abbrev reader_gone : System
reader_gone = record start { lock = read_unlock (record init { rw = pos 1 }) }

last_leaves : Step one_reader reader_gone
last_leaves = read_done (omega arith) refl

Step-wakes_example :
    (record init { rw = pos 1 }).wakes < (read_unlock (record init { rw = pos 1 })).wakes
unfolding try_write init read_unlock
Step-wakes_example = Step-wakes one_reader reader_gone to_write last_leaves refl refl

abbrev two_readers : Lock
two_readers = record init { rw = pos 2 }

abbrev writer_waits : Lock
writer_waits = (try_write two_readers).1
