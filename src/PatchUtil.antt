-- ===== src/PatchUtil.antt =====
-- The patch utilities of the custom resources
-- (client/clientset/versioned/typed/*/v1alpha1/util/*.go), which have one text for every kind.
pub mod Poll
pub mod Status
pub mod Errors
pub mod Silent
pub mod Patch
pub mod Update
use vault_operator.Base.{
  ℕ, zero, suc, ◌+◌, String, ◌≡◌, Bool, not, ◌&&◌, ◌||◌, Option, none, some, List, ◌==◌,
  if◌then◌else◌, Error, message, after_attempts, Fallible, Result, ok, err, is_nil,
}
use vault_operator.Base.Act.{Act, pure, ◌>>=◌}
use vault_operator.Meta.{ObjectMeta, Object, Vendor}

-- What the condition function of a poll returns: (true, nil), (false, nil) or (_, err).
pub data Polled : Type 0 where
  done again : Polled
  stop : Error → Polled

abbrev pub wait_timeout : Error
wait_timeout = message "timed out waiting for the condition"

module _ {S : Type 0} where
  abbrev settle : Polled → S → (S → Option Error × S) → Option Error × S
  settle done s rest = (none, s)
  settle again s rest = rest s
  settle (stop e) s rest = (some e, s)

  -- At most this many rounds of a condition function.
  unfoldable pub attempts : ℕ → (S → Polled × S) → S → Option Error × S
  attempts zero condition s = (some wait_timeout, s)
  attempts (suc n) condition s = let (p, s') = condition s in settle p s' (attempts n condition)

-- `wait.PollImmediate` over what its condition function can change: it tries the condition at
-- once, and again until it returns true or an error or the time is up.
pub record Poller (S : Type 0) : Type 0 where
  pub poll_immediate : (S → Polled × S) → S → Option Error × S
  pub rounds : (S → Polled × S) → S → ℕ
  pub poll_immediate_lem :
      (condition : S → Polled × S) (s : S)
      → poll_immediate condition s ≡ attempts (suc (rounds condition s)) condition s

pub data Verb : Type 0 where
  unchanged created patched : Verb

-- The typed client of one kind of resource, `json.Marshal` and `jsonpatch.CreateMergePatch`.
pub record Client (E Spec Status : Type 0) : Type 0 where
  pub get : String → String → Act E (Fallible (Object Spec Status))
  pub create : String → Object Spec Status → Act E (Fallible (Object Spec Status))
  pub update : String → Object Spec Status → Act E (Fallible (Object Spec Status))
  pub update_status : String → Object Spec Status → Act E (Fallible (Object Spec Status))
  pub patch : String → String → String → Act E (Fallible (Object Spec Status))
  pub marshal : Object Spec Status → Result String
  pub create_merge_patch : String → String → Result String
  pub zero_spec : Spec
  pub zero_status : Status

-- The variables of `UpdateXStatus` and of `TryPatchX` that their condition functions change.
pub record UpdateState (E Spec Status : Type 0) : Type 0 where
  pub attempt : ℕ
  pub cur : Object Spec Status
  pub result : Option (Object Spec Status)
  pub trace : List E

-- Those of `TryUpdateX`, whose `cur` is a variable of the round.
pub record TryState (E Spec Status : Type 0) : Type 0 where
  pub attempt : ℕ
  pub result : Option (Object Spec Status)
  pub trace : List E

-- The test of the patch's length and of the empty object.
abbrev pub nothing_to_patch : String → Bool
nothing_to_patch p = p == "" || p == "{}"

abbrev pub apply :
    {Spec Status : Type 0} → (Status → Status) → Object Spec Status → Object Spec Status
apply transform x = record x { status = transform x.status }

module _ {E Spec Status : Type 0} (v : Vendor) (c : Client E Spec Status) where
  send_patch :
      Object Spec Status → String → Act E (Option (Object Spec Status) × Verb × Option Error)
  send_patch cur p =
      if nothing_to_patch p
      then pure (some cur, unchanged, none)
      else do out ← c.patch cur.meta.namespace cur.meta.name p; pure (some out.0, patched, out.1)

  unfoldable pub patch_object :
      Object Spec Status
      → Object Spec Status
      → Act E (Option (Object Spec Status) × Verb × Option Error)
  unfolding send_patch
  patch_object cur mod' = elim (c.marshal cur) [
    | err e ↦ pure (none, unchanged, some e)
    | ok cur_json ↦ elim (c.marshal mod') [
      | err e ↦ pure (none, unchanged, some e)
      | ok mod_json ↦ elim (c.create_merge_patch cur_json mod_json) [
        | err e ↦ pure (none, unchanged, some e)
        | ok p ↦ send_patch cur p
      ]
    ]
  ]

  unfoldable pub patch :
      Object Spec Status
      → (Object Spec Status → Object Spec Status)
      → Act E (Option (Object Spec Status) × Verb × Option Error)
  patch cur transform = patch_object cur (transform cur)

  unfoldable pub create_or_patch :
      ObjectMeta
      → (Object Spec Status → Object Spec Status)
      → Act E (Option (Object Spec Status) × Verb × Option Error)
  create_or_patch meta transform = do
    found ← c.get meta.namespace meta.name
    elim found.1 [
      | none ↦ patch found.0 transform
      | some e ↦
          if v.is_not_found e
          then (do
            out ←
                c.create meta.namespace
                  (transform (record { meta = meta; spec = c.zero_spec; status = c.zero_status }))
            pure (some out.0, created, out.1))
          else pure (none, unchanged, some e)
    ]

  -- One round of `TryUpdateX`.
  update_found :
      (Object Spec Status → Object Spec Status)
      → TryState E Spec Status
      → Fallible (Object Spec Status) × List E
      → Polled × TryState E Spec Status
  update_found transform s ((cur, none), h) =
      let (out, h') = c.update cur.meta.namespace (transform cur) h in
      (
        if is_nil out.1 then done else again,
        record { attempt = s.attempt + 1; result = some out.0; trace = h' },
      )
  update_found transform s ((cur, some e), h) =
      (if v.is_not_found e then stop e else again, record s { attempt = s.attempt + 1; trace = h })

  unfoldable pub try_update_round :
      ObjectMeta
      → (Object Spec Status → Object Spec Status)
      → TryState E Spec Status
      → Polled × TryState E Spec Status
  unfolding update_found
  try_update_round meta transform s =
      update_found transform s (c.get meta.namespace meta.name s.trace)

  -- One round of `TryPatchX`, which gets the object under the name that the last round left.
  patch_found :
      (Object Spec Status → Object Spec Status)
      → UpdateState E Spec Status
      → Fallible (Object Spec Status) × List E
      → Polled × UpdateState E Spec Status
  patch_found transform s ((cur, none), h) =
      let (out, h') = patch_object cur (transform cur) h in
      (
        if is_nil out.2 then done else again,
        record { attempt = s.attempt + 1; cur = cur; result = out.0; trace = h' },
      )
  patch_found transform s ((cur, some e), h) = (
    if v.is_not_found e then stop e else again,
    record s { attempt = s.attempt + 1; cur = cur; trace = h },
  )

  pub try_patch_round :
      (Object Spec Status → Object Spec Status)
      → UpdateState E Spec Status
      → Polled × UpdateState E Spec Status
  unfolding patch_found
  try_patch_round transform s =
      patch_found transform s (c.get s.cur.meta.namespace s.cur.meta.name s.trace)

  -- What a round of `UpdateXStatus` does after a conflict: it takes the latest object.
  after_conflict :
      Fallible (Object Spec Status) → UpdateState E Spec Status → Polled × UpdateState E Spec Status
  after_conflict (latest, none) s = (again, record s { cur = latest })
  after_conflict (latest, some e) s = (if v.is_request_retryable e then again else stop e, s)

  -- What it does with the answer of the API server. `outer` is the variable `err` of the function
  -- around the condition function, which the source tests in place of the error of the write.
  after_write :
      Option Error
      → ObjectMeta
      → UpdateState E Spec Status
      → Fallible (Object Spec Status) × List E
      → Polled × UpdateState E Spec Status
  unfolding after_conflict
  after_write outer meta s ((out, none), h) =
      (done, record s { attempt = s.attempt + 1; result = some out; trace = h })
  after_write outer meta s ((out, some e), h) =
      let s' = record s { attempt = s.attempt + 1; result = some out; trace = h } in
      if v.is_conflict e
      then (let (latest, h') = c.get meta.namespace meta.name h in
          after_conflict latest (record s' { trace = h' }))
      else (if not (is_nil outer) && not (v.is_request_retryable e) then stop e else again, s')

  -- One round of `UpdateXStatus`.
  unfoldable pub update_status_round :
      Option Error
      → ObjectMeta
      → (Status → Status)
      → UpdateState E Spec Status
      → Polled × UpdateState E Spec Status
  unfolding after_write
  update_status_round outer meta transform s =
      after_write outer meta s (c.update_status meta.namespace (apply transform s.cur) s.trace)

abbrev attempts_failed : String → ℕ → Option Error → Option Error
attempts_failed context n none = none
attempts_failed context n (some e) = some (after_attempts context n e)

unfoldable pub try_update :
    {E Spec Status : Type 0} (v : Vendor) (c : Client E Spec Status)
    → Poller (TryState E Spec Status)
    → ObjectMeta
    → (Object Spec Status → Object Spec Status)
    → Act E (Option (Object Spec Status) × Option Error)
try_update v c tries meta transform h =
    let (e, s) =
      tries.poll_immediate (try_update_round v c meta transform)
        (record { attempt = 0; result = none; trace = h }) in
    ((s.result, attempts_failed "failed to update" s.attempt e), s.trace)

module _ {E Spec Status : Type 0} (v : Vendor) (c : Client E Spec Status)
    (updates : Poller (UpdateState E Spec Status)) where
  pub try_patch :
      Object Spec Status
      → (Object Spec Status → Object Spec Status)
      → Act E (Option (Object Spec Status) × Option Error)
  try_patch cur transform h =
      let (e, s) =
        updates.poll_immediate (try_patch_round v c transform)
          (record { attempt = 0; cur = cur; result = none; trace = h }) in
      (
        (if is_nil e then s.result else none, attempts_failed "failed to patch" s.attempt e),
        s.trace,
      )

  status_read :
      ObjectMeta
      → (Status → Status)
      → Fallible (Object Spec Status) × List E
      → (Option (Object Spec Status) × Option Error) × List E
  status_read meta transform ((cur, some e), h) = ((none, some e), h)
  status_read meta transform ((cur, none), h) =
      let (e, s) =
        updates.poll_immediate (update_status_round v c none meta transform)
          (record { attempt = 0; cur = cur; result = none; trace = h }) in
      ((s.result, attempts_failed "failed to update status of" s.attempt e), s.trace)

  unfoldable pub update_status :
      ObjectMeta → (Status → Status) → Act E (Option (Object Spec Status) × Option Error)
  unfolding status_read
  update_status meta transform h = status_read meta transform (c.get meta.namespace meta.name h)
