-- ===== src/Fifo/Tests.antt =====
-- src/lib/fifo.c: a ring of three items of four bytes at 64, with one item that waits.
use clay_figure_kernel.Base.{inl, inr, refl, arith}
use clay_figure_kernel.Strings.{Bytes}
use clay_figure_kernel.Fifo.{Fifo, fifo_write, fifo_read}
use clay_figure_kernel.Fifo.Slots.{IsFifo}
use clay_figure_kernel.Fifo.Write.{Written, fifo_write-Written}
use clay_figure_kernel.Fifo.Read.{TakenFirst, fifo_read-TakenFirst}

abbrev counting : Bytes
counting x = x

abbrev waiting : Fifo
waiting = record {
  data_start = 64;
  item_size = 4;
  size = 3;
  free = 2;
  next_read = 2;
  next_write = 0;
  lock = record { lock = 1; preempt_count = 0 };
}

waiting-IsFifo : IsFifo waiting
waiting-IsFifo = record {
  some_slot = omega arith;
  counted = omega arith;
  reads = omega arith;
  writes = refl;
  small = omega arith;
  int_item = omega arith;
  int_size = omega arith;
  int_ring = omega arith;
  unlocked = refl;
  preempts = omega arith;
}

fifo_write_example : Written counting waiting 16 (fifo_write counting waiting 16)
fifo_write_example =
    fifo_write-Written counting waiting 16 waiting-IsFifo (inl (omega arith)) (omega arith)
      (λ e. omega (arith, e))

fifo_read_example : TakenFirst counting waiting 128 (fifo_read counting waiting 128)
fifo_read_example =
    fifo_read-TakenFirst counting waiting 128 waiting-IsFifo (inr (omega arith)) (omega arith)
      (λ e. omega (arith, e))
