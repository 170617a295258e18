-- ===== src/Closure/Layout/Tests.antt =====
-- Ten nodes, with the sizes of glibc on 64 bits.
use os_design.Prelude.{◌+◌, ◌<◌, arith}
use os_design.Closure.Layout.{proc_barrier, proc_size}
use os_design.Closure.Layout.Laws.{proc_barrier_outside}

proc_barrier_outside_example : proc_size 32 32 10 < proc_barrier 32 32 10 + 32
proc_barrier_outside_example = proc_barrier_outside 32 32 10 (omega arith)
