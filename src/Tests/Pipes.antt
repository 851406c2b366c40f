-- ===== src/Tests/Pipes.antt =====
-- A pipe whose writer has sent two bytes of a stream.
use kernel_panic_logger.Prelude.{ℕ, ◌≡◌, refl, List, [], ◌∷◌, true, false, arith, get_elem?}
use kernel_panic_logger.Outcome.{ok, ◌>>=◌, zoom}
use kernel_panic_logger.Spinlock.{initlock, acquire, release, holding, push_off, pop_off}
use kernel_panic_logger.Pipe.{
  Pipe, Site, reads, returned, new_pipe, is_full, put_byte, write_loop, stop_writing, write_run,
  read_run,
}
use kernel_panic_logger.Pipe.Queue.{filled}
use kernel_panic_logger.Pipe.Critical.{IsSite}
use kernel_panic_logger.Pipe.Calls.{Reads, read_run_lem}
use kernel_panic_logger.Pipe.Order.{
  System, Reachable, starts, steps, sends, InOrder, collect, stream-InOrder,
}
use kernel_panic_logger.Tests.{quiet, quiet-IsSane, free_lock, free_lock-IsFree}

abbrev stream : List ℕ
stream = 104 ∷ 105 ∷ []

abbrev small_ring : Pipe
small_ring = record {
  lock = free_lock;
  bytes = λ a. 7;
  nread = 4294967295;
  nwrite = 1;
  readopen = true;
  writeopen = true;
}

abbrev at_ring : Site
at_ring = record { hart = quiet; pipe = small_ring; woken = []; freed = false }

at_ring-IsSite : IsSite at_ring
unfolding filled
at_ring-IsSite = record {
  free = free_lock-IsFree;
  sane = quiet-IsSane;
  ring = record { nread_in = omega arith; nwrite_in = omega arith; room = omega arith };
}

read_run_lem_example : Reads false collect 0 3 [] at_ring (read_run false collect 0 3 [] at_ring)
read_run_lem_example = read_run_lem false collect 0 3 [] at_ring at_ring-IsSite

abbrev new_site : Site
new_site = record { hart = quiet; pipe = new_pipe (λ a. 0); woken = []; freed = false }

abbrev new_system : System
new_system = record { site = new_site; offset = 0; received = [] }

abbrev sent_site : Site
sent_site = record {
  hart = record quiet { intena = true };
  pipe = put_byte 105 (put_byte 104 (new_pipe (λ a. 0)));
  woken = reads ∷ [];
  freed = false;
}

sent : write_run (λ j. false) (get_elem? stream) 0 0 2 new_site ≡ ok (returned 2) sent_site
unfolding write_run write_loop stop_writing is_full put_byte new_pipe acquire release holding
    push_off pop_off ◌>>=◌ zoom initlock
sent = refl

abbrev sent_system : System
sent_system = record { site = sent_site; offset = 2; received = [] }

sent_system-Reachable : Reachable stream sent_system
sent_system-Reachable =
    steps (starts {s = new_system} (λ a. 0) refl quiet-IsSane refl refl)
      (sends 0 0 2 (returned 2) sent_site refl (omega arith) sent)

stream-InOrder_example : InOrder stream sent_system
stream-InOrder_example = stream-InOrder stream sent_system sent_system-Reachable
