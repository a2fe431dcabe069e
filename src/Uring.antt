-- ===== src/Uring.antt =====
-- What the programs see of io_uring: the result of a completion. Submissions are results of the
-- models, completions their arguments.
use fast_net.Base.{ℕ}

-- cqe->res: a count of bytes, or a negative error number.
pub data Res : Type 0 where
  bytes : ℕ → Res
  error : ℕ → Res
