-- ===== src/PatchUtil/Poll.antt =====
-- The rule for `wait.PollImmediate`, from which the three retry loops are proved.
use vault_operator.Base.{ℕ, zero, suc, sym, Option, none, some, Error}
use mathlib.Core.Path.{subst}
use vault_operator.PatchUtil.{Polled, done, again, stop, settle, attempts, wait_timeout, Poller}

-- What holds after a round: `P` where it goes on, `D` where it is done, `F` where it stops.
abbrev pub Round {ℓ} :
    {S : Type 0} → (S → Type ℓ) → (S → Type ℓ) → (Error → S → Type ℓ) → Polled → S → Type ℓ
Round P D F done s = D s
Round P D F again s = P s
Round P D F (stop e) s = F e s

-- What holds after the poll.
abbrev pub Ends {ℓ} : {S : Type 0} → (S → Type ℓ) → (Error → S → Type ℓ) → Option Error → S → Type ℓ
Ends D F none s = D s
Ends D F (some e) s = F e s

module _ {ℓ} {S : Type 0} (P D : S → Type ℓ) (F : Error → S → Type ℓ) (condition : S → Polled × S)
    (late : (s : S) → P s → F wait_timeout s)
    (round : (s : S) → P s → Round P D F (condition s).0 (condition s).1) where
  settle_rule :
      (p : Polled) (s : S) (rest : S → Option Error × S)
      → ((s' : S) → P s' → Ends D F (rest s').0 (rest s').1)
      → Round P D F p s
      → Ends D F (settle p s rest).0 (settle p s rest).1
  settle_rule done s rest k r = r
  settle_rule again s rest k r = k s r
  settle_rule (stop e) s rest k r = r

  pub attempts_rule :
      (n : ℕ) (s : S) → P s → Ends D F (attempts n condition s).0 (attempts n condition s).1
  unfolding attempts
  attempts_rule zero s p = late s p
  attempts_rule (suc n) s p =
      settle_rule (condition s).0 (condition s).1 (attempts n condition) (attempts_rule n)
        (round s p)

  pub poll_rule :
      (poller : Poller S) (s : S)
      → P s
      → Ends D F (poller.poll_immediate condition s).0 (poller.poll_immediate condition s).1
  poll_rule poller s p =
      subst (λ (r : Option Error × S). Ends D F r.0 r.1)
        (sym (poller.poll_immediate_lem condition s))
        (attempts_rule (suc (poller.rounds condition s)) s p)
