-- ===== src/EventProcessor/Watched.antt =====
-- What the event loop watches after calls of `add_io` and `remove_io` (io/event_processor.cpp).
use npoller.Base.{
  ℕ, ◌+◌, ◌≡◌, ◌≢◌, inl, inr, sym, Bool, true, false, Bool-cases, not, ◌||◌, ◌==◌, List, [], ◌∷◌,
  Outcome, ok, err, runtime_error, All, All-imp, Distinct, arith,
}
use npoller.EventProcessor.Watch.{
  IoOps, CtlResult, added, ebadf, einval, eexist, eperm, other_error, find, erase, is_some,
  takes_io, Processor, unwatch, remove_io,
}
use npoller.Base.{In}

abbrev pub keys {ℓ} : {A : Type ℓ} → List (ℕ × A) → List ℕ
keys [] = []
keys ((k, v) ∷ rest) = k ∷ keys rest

module _ {ℓ} {A : Type ℓ} where
  find-fresh :
      (fd : ℕ) (m : List (ℕ × A)) → is_some (find fd m) ≡ false → All (λ k. fd ≢ k) (keys m)
  find-fresh fd [] h = tt
  find-fresh fd ((k, v) ∷ m) h = elim (Bool-cases (k == fd)) [
    | inl same ↦ let found : true ≡ false = rw same at h in cc
    | inr other ↦
        let rest : is_some (find fd m) ≡ false = rw other at h in
        (λ e. ground arith, find-fresh fd m rest)
  ]

  All-erase {κ} :
      (P : ℕ → Type κ) (fd : ℕ) (m : List (ℕ × A)) → All P (keys m) → All P (keys (erase fd m))
  All-erase P fd [] h = tt
  All-erase P fd ((k, v) ∷ m) h = elim (Bool-cases (k == fd)) [
    | inl same ↦ rw same h.1
    | inr other ↦ rw other (h.0, All-erase P fd m h.1)
  ]

  Distinct-erase : (fd : ℕ) (m : List (ℕ × A)) → Distinct (keys m) → Distinct (keys (erase fd m))
  Distinct-erase fd [] h = tt
  Distinct-erase fd ((k, v) ∷ m) h = elim (Bool-cases (k == fd)) [
    | inl same ↦ rw same h.1
    | inr other ↦ rw other (All-erase (λ j. k ≢ j) fd m h.0, Distinct-erase fd m h.1)
  ]

  -- The pair that is erased is the only one with its key.
  erase-gone :
      (fd : ℕ) (m : List (ℕ × A)) → Distinct (keys m) → All (λ k. k ≢ fd) (keys (erase fd m))
  erase-gone fd [] h = tt
  erase-gone fd ((k, v) ∷ m) h = elim (Bool-cases (k == fd)) [
    | inl same ↦ rw same (All-imp _ _ (keys m) (λ j ne e. ne (ground arith)) h.0)
    | inr other ↦ rw other (λ e. ground arith, erase-gone fd m h.1)
  ]

In-unwatch : (fd k : ℕ) (ks : List ℕ) → k ≢ fd → In k ks → In k (unwatch fd ks)
In-unwatch fd k [] ne i = i
In-unwatch fd k (j ∷ ks) ne (inl e) = elim (Bool-cases (j == fd)) [
  | inl same ↦ absurd (ne (ground arith))
  | inr other ↦ rw other (inl e)
]
In-unwatch fd k (j ∷ ks) ne (inr i) = elim (Bool-cases (j == fd)) [
  | inl same ↦ rw same i
  | inr other ↦ rw other (inr (In-unwatch fd k ks ne i))
]

In-unwatch_each :
    (fd : ℕ) (ks js : List ℕ)
    → All (λ k. k ≢ fd) js
    → All (λ k. In k ks) js
    → All (λ k. In k (unwatch fd ks)) js
In-unwatch_each fd ks [] ne i = tt
In-unwatch_each fd ks (k ∷ js) ne i =
    (In-unwatch fd k ks ne.0 i.0, In-unwatch_each fd ks js ne.1 i.1)

module _ (ops : IoOps) where
  -- No descriptor is in the map twice, and the kernel watches all that are.
  pub record Inv (s : Processor ops) : Type 0 where
    pub distinct : Distinct (keys s.io_map)
    pub watched : All (λ k. In k s.epoll) (keys s.io_map)

  -- The rounds in which `epoll_ctl` accepts a socket, which then is `j`: at once, or after `EINVAL`, without
  -- `EPOLLRDHUP`.
  pub data Accepted : (ℕ → CtlResult) → ops.Io → ops.Io → Type 0 where
    at_once :
        {results : ℕ → CtlResult} {i : ops.Io} {j : ops.Io}
        → is_some (ops.get_event i).0 ≡ true
        → results 0 ≡ added
        → j ≡ (ops.get_event i).1
        → Accepted results i j
    again :
        {results : ℕ → CtlResult} {i : ops.Io} {j : ops.Io}
        → is_some (ops.get_event i).0 ≡ true
        → results 0 ≡ einval
        → ops.support_epollrdhup (ops.get_event i).1 ≡ true
        → Accepted (λ n. results (n + 1)) (ops.drop_epollrdhup (ops.get_event i).1) j
        → Accepted results i j

  -- The rounds in which a socket is not put in, and what `add_io` then answers.
  pub data Refused : (ℕ → CtlResult) → ops.Io → Bool → Type 0 where
    no_event :
        {results : ℕ → CtlResult} {i : ops.Io} {b : Bool}
        → is_some (ops.get_event i).0 ≡ false
        → b ≡ false
        → Refused results i b
    bad_descriptor :
        {results : ℕ → CtlResult} {i : ops.Io} {b : Bool}
        → is_some (ops.get_event i).0 ≡ true
        → results 0 ≡ ebadf
        → b ≡ false
        → Refused results i b
    unsupported :
        {results : ℕ → CtlResult} {i : ops.Io} {b : Bool}
        → is_some (ops.get_event i).0 ≡ true
        → results 0 ≡ einval
        → ops.support_epollrdhup (ops.get_event i).1 ≡ false
        → b ≡ false
        → Refused results i b
    regular_file :
        {results : ℕ → CtlResult} {i : ops.Io} {b : Bool}
        → is_some (ops.get_event i).0 ≡ true
        → results 0 ≡ eperm
        → b ≡ true
        → Refused results i b
    other_failure :
        {results : ℕ → CtlResult} {i : ops.Io} {b : Bool}
        → is_some (ops.get_event i).0 ≡ true
        → results 0 ≡ other_error
        → b ≡ false
        → Refused results i b
    refused_again :
        {results : ℕ → CtlResult} {i : ops.Io} {b : Bool}
        → is_some (ops.get_event i).0 ≡ true
        → results 0 ≡ einval
        → ops.support_epollrdhup (ops.get_event i).1 ≡ true
        → Refused (λ n. results (n + 1)) (ops.drop_epollrdhup (ops.get_event i).1) b
        → Refused results i b

  -- Whether a round ends with `EEXIST`.
  pub data Doubled : (ℕ → CtlResult) → ops.Io → Type 0 where
    doubled :
        {results : ℕ → CtlResult} {i : ops.Io}
        → is_some (ops.get_event i).0 ≡ true
        → results 0 ≡ eexist
        → Doubled results i
    doubled_again :
        {results : ℕ → CtlResult} {i : ops.Io}
        → is_some (ops.get_event i).0 ≡ true
        → results 0 ≡ einval
        → Doubled (λ n. results (n + 1)) (ops.drop_epollrdhup (ops.get_event i).1)
        → Doubled results i

  -- What the rounds for `i` come to. Where `epoll_ctl` accepts it: the socket is in the map; or it was put
  -- there and removed again, since this processor was its manager. Else nothing was changed, or an exception.
  pub data Tried (results : ℕ → CtlResult) (i : ops.Io) (s : Processor ops)
      (out : Outcome (Bool × ops.Io × Processor ops)) : Type 0 where
    in_map :
        (j : ops.Io) (t : Processor ops)
        → Accepted results i j
        → ops.managed_here j ≡ false
        → out ≡ ok (true, ops.update_manager j, t)
        → t.io_map ≡ (ops.fd i, ops.update_manager j) ∷ s.io_map
        → t.epoll ≡ ops.fd i ∷ s.epoll
        → Inv t
        → Tried results i s out
    undone :
        (j : ops.Io)
        → Accepted results i j
        → ops.managed_here j ≡ true
        → out ≡ ok (true, ops.update_manager j, s)
        → Tried results i s out
    refused :
        (b : Bool) (j : ops.Io) → Refused results i b → out ≡ ok (b, j, s) → Tried results i s out
    thrown : Doubled results i → out ≡ err runtime_error → Tried results i s out

  -- What `add_io` comes to: the processor takes no socket, or this one is invalid or its own; the descriptor
  -- is in the map already; or the rounds.
  pub data Added (results : ℕ → CtlResult) (i : ops.Io) (s : Processor ops)
      (out : Outcome (Bool × ops.Io × Processor ops)) : Type 0 where
    turned_away :
        (not (takes_io s.status) || (not (ops.valid_safe i) || (ops.fd i == s.epfd))) ≡ true
        → out ≡ ok (false, i, s)
        → Added results i s out
    present :
        is_some (find (ops.fd i) s.io_map) ≡ true → out ≡ err runtime_error → Added results i s out
    tried :
        is_some (find (ops.fd i) s.io_map) ≡ false → Tried results i s out → Added results i s out

  -- On a processor whose map has each descriptor once and only ones that the kernel watches, `remove_io`
  -- keeps it so, and takes the descriptor out of the map even where
  -- `epoll_ctl` fails.
  remove_io_lem :
      (removed : Bool) (fd : ℕ) (s : Processor ops)
      → Inv s
      → Inv (remove_io ops removed fd s).1
        × All (λ k. k ≢ fd) (keys (remove_io ops removed fd s).1.io_map)
  unfolding remove_io
  remove_io_lem removed fd s v = elim (Bool-cases (is_some (find fd s.io_map))) [
    | inr absent ↦
        rw absent
          (v, All-imp _ _ (keys s.io_map) (λ k ne e. ne (sym e)) (find-fresh fd s.io_map absent))
    | inl there ↦
        let distinct = Distinct-erase fd s.io_map v.distinct in
        let gone = erase-gone fd s.io_map v.distinct in
        let watched = All-erase (λ k. In k s.epoll) fd s.io_map v.watched in
        elim (Bool-cases removed) [
          | inl done ↦
              rw (there, done)
                (
                  record {
                    distinct = distinct;
                    watched = In-unwatch_each fd s.epoll _ gone watched;
                  },
                  gone,
                )
          | inr failed ↦
              rw (there, failed) (record { distinct = distinct; watched = watched }, gone)
        ]
  ]
