-- ===== src/Elog/Manual/Writes.antt =====
-- What elog_add_event_manually and elog_clear_manually of lib/eventlog/elog.c write, on every path.
use mosys.Common.{
  ℕ, ◌+◌, ◌/◌, ◌≡◌, ◌≢◌, ◌⊎◌, inl, inr, refl, sym, ◌∙◌, Option, none, some, List, ltb, Run, done,
  fault, out_of_fuel, ◌>>=◌, length, Rc, Bool-cases, Option-cases,
}
use mosys.Elog.Entry.{sizeof_entry, Clock}
use mosys.Elog.Iterator.{Fetched}
use mosys.Elog.Manual.{
  LogCb, Reply, success, enosys, einval, failure, new_log, cleared_log, store,
  elog_add_event_manually, elog_clear_manually,
}

-- Either nothing was written, and the reply is no success, or there was one write, of the fetched
-- length, and the reply is what it came to.
abbrev pub OneWrite : {W : Type 0} → LogCb W → W → Reply → W → Type 0
OneWrite {W} cb w reply w' =
    ((w' ≡ w) × (reply ≢ success))
    ⊎ ((fetch : W → Option Fetched) × (write : W → List ℕ → ℕ → Rc × W) × (f : Fetched)
        × (buf : List ℕ) × (cb.fetch ≡ some fetch)
        × (cb.write ≡ some write)
        × (fetch w ≡ some f)
        × (store write w buf f.len ≡ (reply, w')))

abbrev pub returned : {W : Type 0} → Reply → W → Run (Reply × W)
returned r w = done (r, w)

-- What follows once there is a new log.
abbrev finish :
    {W : Type 0} → (W → List ℕ → ℕ → Rc × W) → W → Fetched → Run (Option (List ℕ)) → Run (Reply × W)
finish write w f log =
    log >>= λ l. elim l [ none ↦ returned failure w | some buf ↦ done (store write w buf f.len) ]

unwritten :
    {W : Type 0} (cb : LogCb W) (w : W) (r reply : Reply) (w' : W)
    → r ≢ success
    → returned r w ≡ returned reply w'
    → OneWrite cb w reply w'
unwritten cb w r reply w' bad e = inl (cc e, λ good. bad (cc (e, good)))

written :
    {W : Type 0} (fetch : W → Option Fetched) (write : W → List ℕ → ℕ → Rc × W) (w : W)
    (f : Fetched) (log : Run (Option (List ℕ))) (reply : Reply) (w' : W)
    → fetch w ≡ some f
    → finish write w f log ≡ returned reply w'
    → OneWrite (record { fetch = some fetch; write = some write }) w reply w'
written fetch write w f (done none) reply w' got e =
    unwritten (record { fetch = some fetch; write = some write }) w failure reply w' (λ q. cc q) e
written fetch write w f (done (some buf)) reply w' got e =
    inr (fetch, write, f, buf, refl, refl, got, cc e)
written fetch write w f fault reply w' got e = cc e
written fetch write w f out_of_fuel reply w' got e = cc e

-- Whatever the log, the event, the clock and the platform: when `elog_add_event_manually` returns,
-- it has written nothing and reports no success, or it has made one write, of as many bytes as were
-- fetched, and reports what that came to.
pub elog_add_event_manually-OneWrite :
    {W : Type 0} (cb : LogCb W) (w : W) (type : ℕ) (event_data : List ℕ) (c₁ c : Clock)
    (reply : Reply) (w' : W)
    → elog_add_event_manually cb w type event_data c₁ c ≡ returned reply w'
    → OneWrite cb w reply w'
unfolding elog_add_event_manually
elog_add_event_manually-OneWrite {W} cb w type event_data c₁ c reply w' e = go cb.fetch cb.write e
  where
    size : ℕ
    size = sizeof_entry + length event_data + 1

    go :
        (fetch : Option (W → Option Fetched)) (write : Option (W → List ℕ → ℕ → Rc × W))
        → elog_add_event_manually (record { fetch = fetch; write = write }) w type event_data c₁ c
          ≡ returned reply w'
        → OneWrite (record { fetch = fetch; write = write }) w reply w'
    go none write e =
        unwritten (record { fetch = none; write = write }) w enosys reply w' (λ q. cc q) e
    go (some fetch) none e =
        unwritten (record { fetch = some fetch; write = none }) w enosys reply w' (λ q. cc q) e
    go (some fetch) (some write) e =
        let platform : LogCb W = record { fetch = some fetch; write = some write } in
        let call = elog_add_event_manually platform w type event_data c₁ c in
        elim (Bool-cases (ltb 0xff size)) [
          | inl large ↦
              let stops : call ≡ returned einval w = rw large refl in
              unwritten platform w einval reply w' (λ q. cc q) (sym stops ∙ e)
          | inr fits ↦ elim (Option-cases (fetch w)) [
            | inl missing ↦
                let stops : call ≡ returned failure w = rw (fits, missing) refl in
                unwritten platform w failure reply w' (λ q. cc q) (sym stops ∙ e)
            | inr (f, got) ↦ elim (Bool-cases (ltb (f.len / 4) size)) [
              | inl large ↦
                  let stops : call ≡ returned failure w = rw (fits, got, large) refl in
                  unwritten platform w failure reply w' (λ q. cc q) (sym stops ∙ e)
              | inr small ↦
                  let goes : call ≡ finish write w f (new_log fetch w f type event_data c₁ c) =
                    rw (fits, got, small) refl in
                  written fetch write w f _ reply w' got (sym goes ∙ e)
            ]
          ]
        ]

-- When `elog_clear_manually` returns, it has written nothing and reports no success, or it has made
-- one write, of as many bytes as were fetched, and reports what that came to.
pub elog_clear_manually-OneWrite :
    {W : Type 0} (cb : LogCb W) (w : W) (c : Clock) (reply : Reply) (w' : W)
    → elog_clear_manually cb w c ≡ returned reply w'
    → OneWrite cb w reply w'
unfolding elog_clear_manually
elog_clear_manually-OneWrite {W} cb w c reply w' e = go cb.fetch cb.write e
  where
    go :
        (fetch : Option (W → Option Fetched)) (write : Option (W → List ℕ → ℕ → Rc × W))
        → elog_clear_manually (record { fetch = fetch; write = write }) w c ≡ returned reply w'
        → OneWrite (record { fetch = fetch; write = write }) w reply w'
    go none write e =
        unwritten (record { fetch = none; write = write }) w enosys reply w' (λ q. cc q) e
    go (some fetch) none e =
        unwritten (record { fetch = some fetch; write = none }) w enosys reply w' (λ q. cc q) e
    go (some fetch) (some write) e =
        let platform : LogCb W = record { fetch = some fetch; write = some write } in
        let call = elog_clear_manually platform w c in
        elim (Option-cases (fetch w)) [
          | inl missing ↦
              let stops : call ≡ returned failure w = rw missing refl in
              unwritten platform w failure reply w' (λ q. cc q) (sym stops ∙ e)
          | inr (f, got) ↦
              let goes : call ≡ finish write w f (cleared_log fetch w f c) = rw got refl in
              written fetch write w f _ reply w' got (sym goes ∙ e)
        ]
