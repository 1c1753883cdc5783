-- ===== src/Mailbox/Tests.antt =====
-- Examples for mailboxes: an array of two messages, empty, with one message, and full. Thread 6
-- waits to read, into address 9; the message at address 8 is sent.
use sancus_riot.Common.{ℕ, refl, false, true, [], ◌∷◌, arith}
use sancus_riot.Sched.Example.{two}
use sancus_riot.Entry.{Caller}
use sancus_riot.Cib.Queue.{contents}
use sancus_riot.Mailbox.{Msg, Mbox, Memory}
use sancus_riot.Mailbox.Fifo.{Holds, PutDone, GetDone, mbox_put-PutDone, mbox_get-GetDone}
use sancus_riot.Mailbox.Handover.{Delivered, woken, mbox_put-Delivered}
use sancus_riot.Mailbox.Overrun.{Overrun, put_resumed-Overrun}

abbrev caller : Caller
caller = record { interrupts = []; due = false; sp = 0x9000; protected = true }

abbrev message : ℕ → Msg
message n = record { sender_pid = 3; type = n; content = n }

abbrev memory : Memory
memory = record { messages = message; wait_data = λ n. 9 }

abbrev box : ℕ → ℕ → ℕ → Mbox
box readers first last = record {
  readers = readers;
  writers = 0;
  cib = record { read_count = first; write_count = last; mask = 1 };
  msg_array = message;
}

one_held : Holds (box 0 65535 0) 1 1 (message 1 ∷ [])
unfolding contents
one_held = record {
  counts = record {
    small = omega arith;
    mask = refl;
    read = omega arith;
    filled = refl;
    room = omega arith;
  };
  listed = refl;
}

two_held : Holds (box 0 65535 1) 1 2 (message 1 ∷ message 0 ∷ [])
unfolding contents
two_held = record {
  counts = record {
    small = omega arith;
    mask = refl;
    read = omega arith;
    filled = refl;
    room = omega arith;
  };
  listed = refl;
}

mbox_put-PutDone_example : PutDone 0 caller 8 true (box 0 65535 0) memory two 1 1 (message 1 ∷ [])
mbox_put-PutDone_example =
    mbox_put-PutDone 0 caller 8 true (box 0 65535 0) memory two 1 1 (message 1 ∷ []) one_held refl
      (omega arith)

mbox_get-GetDone_example :
    GetDone 0 caller 9 true (box 0 65535 1) memory two 1 1 (message 1) (message 0 ∷ [])
mbox_get-GetDone_example =
    mbox_get-GetDone 0 caller 9 true (box 0 65535 1) memory two 1 1 (message 1) (message 0 ∷ [])
      two_held refl

mbox_put-Delivered_example : Delivered 0 caller 8 false (box 6 0 0) memory two (woken caller 6 two)
mbox_put-Delivered_example =
    mbox_put-Delivered 0 caller 8 false (box 6 0 0) memory two (λ e. ground arith)
      (λ e. ground arith)
      record {
        active = λ e. ground arith;
        other = λ e. ground arith;
        runs = refl;
        level = omega arith;
      }

put_resumed-Overrun_example : Overrun 8 9 (box 0 65535 1) memory two 1
put_resumed-Overrun_example =
    put_resumed-Overrun 8 9 (box 0 65535 1) memory two 1 (message 1 ∷ message 0 ∷ []) two_held
