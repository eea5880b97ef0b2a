-- ===== src/Video/Ioctl.antt =====
-- src/v4l2uvc.c: `xioctl`. The driver is a parameter: what it answers to the k-th call.
use hawkeye.Base.{ℕ, zero, suc, ◌+◌, Bool, if◌then◌else◌, ◌==◌}

-- The result of one call, and whether errno is then EINTR, EAGAIN or ETIMEDOUT.
pub record Answer : Type 0 where
  pub fails : Bool
  pub is_temporary : Bool

pub data Outcome : Type 0 where
  success : Outcome
  error : Outcome
  panic : Outcome

abbrev pub ioctl_retry : ℕ
ioctl_retry = 4

module _ (answers : ℕ → Answer) where
  -- The loop from call `k` on, with `tries` as it is then, and the test behind it. The last call is
  -- made with 0 tries, which the post-decrement turns into -1.
  unfoldable pub xioctl_from : ℕ → ℕ → Outcome
  xioctl_from zero k = if (answers k).fails then panic else success
  xioctl_from (suc tries) k =
      let again = xioctl_from tries (k + 1) in
      if (answers k).fails
      then if (answers k).is_temporary then again else if tries == 0 then panic else error
      else success

  unfoldable pub xioctl : Outcome
  xioctl = xioctl_from ioctl_retry 0
