-- ===== src/Pipe/Tests.antt =====
-- Runs of a pipe, and the theorems at pipes whose counters are about to wrap.
use mit_xv.Prelude.{◌≤◌, ◌≡◌, refl, true, false, [], ◌∷◌, ◌++◌, ◌==◌, if◌then◌else◌, take}
use mit_xv.Pipe.{
  Pipe, pipesize, new_pipe, got, pipewrite, piperead, push, is_full, is_empty, copy_out, advance,
}
use mit_xv.Pipe.Window.{used, contents, window}
use mit_xv.Pipe.Write.{room}
use mit_xv.Pipe.Fifo.{Traffic, start, next, Step, pipe_fifo}

-- Two bytes, 7 and 8, on either side of the wrap of the counters.
abbrev wrapping : Pipe
wrapping = record {
  buf = λ i. if i == 511 then 7 else 8;
  nread = 4_294_967_295;
  nwrite = 1;
  readopen = true;
  writeopen = true;
}

contents-wrapping : contents wrapping ≡ 7 ∷ 8 ∷ []
unfolding window
contents-wrapping = refl

write_then_read : (piperead false (pipewrite false wrapping (9 ∷ [])).1 5).0 ≡ got (7 ∷ 8 ∷ 9 ∷ [])
unfolding pipewrite piperead push is_full is_empty copy_out advance
write_then_read = refl

abbrev after_one : Traffic
after_one = record {
  pipe = (pipewrite false (new_pipe (λ _. 0)) (5 ∷ [])).1;
  sent = [] ++ take (room (new_pipe (λ _. 0))) (5 ∷ []);
  received = [];
}

pipe_fifo_example :
    (after_one.sent ≡ [] ++ contents after_one.pipe) × (used after_one.pipe ≤ pipesize)
pipe_fifo_example = pipe_fifo (next start (Step.write false (5 ∷ [])))
