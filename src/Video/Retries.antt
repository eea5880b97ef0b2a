-- ===== src/Video/Retries.antt =====
-- What `xioctl` does with the answers of the driver.
use hawkeye.Base.{
  ℕ, zero, suc, ◌+◌, ◌≤◌, ◌<◌, ◌≡◌, inl, inr, true, false, Bool-cases, if-intro, arith, subst, ◌==◌,
}
use hawkeye.Video.Ioctl.{Answer, Outcome, success, error, panic, ioctl_retry, xioctl_from, xioctl}

module _ (answers : ℕ → Answer) where
  -- Every call from `k` on and before `n` fails for a moment only.
  abbrev pub Retried : ℕ → ℕ → Type 0
  Retried k n =
      (i : ℕ) → k ≤ i → i < n → ((answers i).fails ≡ true) × ((answers i).is_temporary ≡ true)

  -- How the loop ends when the calls from `k` to `last` are allowed.
  pub data Ends (k last : ℕ) : Outcome → Type 0 where
    succeeds :
        (n : ℕ) → k ≤ n → n ≤ last → Retried k n → (answers n).fails ≡ false → Ends k last success
    refused :
        (n : ℕ)
        → k ≤ n
        → n + 2 ≤ last
        → Retried k n
        → (answers n).fails ≡ true
        → (answers n).is_temporary ≡ false
        → Ends k last error
    refused_late :
        (n : ℕ)
        → k ≤ n
        → n + 1 ≡ last
        → Retried k n
        → (answers n).fails ≡ true
        → (answers n).is_temporary ≡ false
        → Ends k last panic
    gives_up : Retried k last → (answers last).fails ≡ true → Ends k last panic

  Retried-more :
      (k n : ℕ)
      → (answers k).fails ≡ true
      → (answers k).is_temporary ≡ true
      → Retried (k + 1) n
      → Retried k n
  Retried-more k n f t h i a b = elim (Bool-cases (i == k)) [
    | inl same ↦
        subst (λ j. ((answers j).fails ≡ true) × ((answers j).is_temporary ≡ true)) (k_is i k same)
          (f, t)
    | inr other ↦ h i (later i k a other) b
  ]
    where
      k_is : (i k : ℕ) → (i == k) ≡ true → k ≡ i
      k_is i k e = ground (arith, e)

      later : (i k : ℕ) → k ≤ i → (i == k) ≡ false → k + 1 ≤ i
      later i k a e = ground (arith, a, e)

  Ends-more :
      (k last : ℕ) (o : Outcome)
      → (answers k).fails ≡ true
      → (answers k).is_temporary ≡ true
      → Ends (k + 1) last o
      → Ends k last o
  Ends-more k last success f t (succeeds n a b h e) =
      succeeds n (omega arith) b (Retried-more k n f t h) e
  Ends-more k last error f t (refused n a b h e e') =
      refused n (omega arith) b (Retried-more k n f t h) e e'
  Ends-more k last panic f t (refused_late n a b h e e') =
      refused_late n (omega arith) b (Retried-more k n f t h) e e'
  Ends-more k last panic f t (gives_up h e) = gives_up (Retried-more k last f t h) e

  none_before : (k : ℕ) → Retried k k
  none_before k i a b = absurd (omega (arith, a, b))

  xioctl_from-Ends :
      (tries k last : ℕ) → k + tries ≡ last → Ends k last (xioctl_from answers tries k)
  unfolding xioctl_from
  xioctl_from-Ends zero k last e =
      let here : k ≡ last = omega arith in
      if-intro (Ends k last) (answers k).fails
        (λ on. subst (λ l. Ends k l panic) here (gives_up (none_before k) on))
        (λ off. succeeds k (omega arith) (omega arith) (none_before k) off)
  xioctl_from-Ends (suc tries) k last e =
      if-intro (Ends k last) (answers k).fails
        (λ on.
          if-intro (Ends k last) (answers k).is_temporary
            (λ short.
              Ends-more k last (xioctl_from answers tries (k + 1)) on short
                (xioctl_from-Ends tries (k + 1) last (omega arith)))
            (λ lasting.
              if-intro (Ends k last) (tries == 0)
                (λ out.
                  refused_late k (omega arith) (ground (arith, e, out)) (none_before k) on lasting)
                (λ left.
                  refused k (omega arith) (ground (arith, e, left)) (none_before k) on lasting)))
        (λ off. succeeds k (omega arith) (omega arith) (none_before k) off)

-- `xioctl` makes at most five calls and repeats a call only after a temporary failure. It succeeds
-- at the first call that does, reports an error if one of the first three calls fails for good, and
-- exits the program if the fourth call fails for good or if the fifth fails at all.
pub xioctl-Ends : (answers : ℕ → Answer) → Ends answers 0 ioctl_retry (xioctl answers)
unfolding xioctl
xioctl-Ends answers = xioctl_from-Ends answers ioctl_retry 0 ioctl_retry (omega arith)
