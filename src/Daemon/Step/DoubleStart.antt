-- ===== src/Daemon/Step/DoubleStart.antt =====
-- Two calls of `StartSender` that overlap.
use m_tlsling.Base.{
  ℕ, ◌≡◌, refl, sym, subst, ◌∙◌, String, Bool, true, false, none, some, List, [], ◌∷◌, ok, arith,
}
use mathlib.Core.List.{Memᴰ}
use m_tlsling.Config.{Crypto, TlsConfig}
use m_tlsling.Discovery.{Advert}
use m_tlsling.Daemon.Types.{SenderSettings}
use m_tlsling.Daemon.State.{World, Env, run_server, is_cancelled}
use m_tlsling.Daemon.Sender.{begin_sender, build_sender, commit_sender, stop_sender}
use m_tlsling.Daemon.Step.{Pending, sender, System, Atomic, Step, Reach, commit}

-- Both calls pass the first critical section, since neither has reached the second.
both_begin :
    (C : Crypto) (w : World C)
    → w.daemon.sender.running ≡ false
    → let w1 = (begin_sender C true w).0 in
      let w2 = (begin_sender C true w1).0 in
      (begin_sender C true w ≡ (w1, some (w.daemon.settings.sender, w.daemon.sender_files)))
      × (begin_sender C true w1 ≡ (w2, some (w1.daemon.settings.sender, w1.daemon.sender_files)))
unfolding begin_sender
both_begin C w h = ground arith

-- A sender runs whose context nobody holds.
pub record OrphanedSender (C : Crypto) (ctx srv : ℕ) (s : SenderSettings) (cfg : TlsConfig C)
    (w : World C) : Type 0 where
  pub not_running : w.daemon.sender.running ≡ false
  pub no_handle : (w.daemon.sender.cancel ≡ none) × (w.daemon.sender.srv ≡ none)
  pub not_cancelled : is_cancelled ctx w.cancelled ≡ false
  pub not_stopped : is_cancelled srv w.stopped ≡ false
  pub serving : Memᴰ (run_server ctx srv s.addr cfg) w.tasks

committed_twice :
    (C : Crypto) (s t : SenderSettings) (cfg cfg' : TlsConfig C) (ad ad' : Advert) (w : World C)
    (update : Bool)
    → is_cancelled w.next_ctx w.cancelled ≡ false
    → is_cancelled w.next_srv w.stopped ≡ false
    → OrphanedSender C w.next_ctx w.next_srv s cfg
        (stop_sender C update (commit_sender C t cfg' ad' (commit_sender C s cfg ad w)))
unfolding commit_sender stop_sender is_cancelled
committed_twice C s t cfg cfg' ad ad' w update c d = record {
  not_running = ground arith;
  no_handle = ground arith;
  not_cancelled = ground arith;
  not_stopped = ground arith;
  serving = Memᴰ.tail (Memᴰ.tail (Memᴰ.tail (Memᴰ.tail (Memᴰ.head refl))));
}

build_sender-enabled :
    (C : Crypto) (env : Env C) (on : Bool) (s : SenderSettings) (files : List String)
    → build_sender C env (record s { enabled = on }) files ≡ build_sender C env s files
unfolding build_sender
build_sender-enabled C env on s [] = refl
build_sender-enabled C env on s (f ∷ fs) = refl

begun :
    (C : Crypto) (w : World C)
    → let w1 = (begin_sender C true w).0 in
      let w2 = (begin_sender C true w1).0 in
      (w1.daemon.settings.sender ≡ record (w.daemon.settings.sender) { enabled = true })
      × (w1.daemon.sender_files ≡ w.daemon.sender_files)
      × (w2.next_ctx ≡ w.next_ctx)
      × (w2.next_srv ≡ w.next_srv)
      × (w2.cancelled ≡ w.cancelled)
      × (w2.stopped ≡ w.stopped)
unfolding begin_sender
begun C w = ground arith

commits_orphan :
    (C : Crypto) (ctx srv : ℕ) (s t : SenderSettings) (cfg : TlsConfig C) (ad : Advert)
    (w : World C)
    → w.next_ctx ≡ ctx
    → w.next_srv ≡ srv
    → is_cancelled ctx w.cancelled ≡ false
    → is_cancelled srv w.stopped ≡ false
    → OrphanedSender C ctx srv s cfg
        (stop_sender C true (commit_sender C t cfg ad (commit_sender C s cfg ad w)))
commits_orphan C ctx srv s t cfg ad w next next' c d =
    let at_own =
      committed_twice C s t cfg cfg ad ad w true
        (subst (λ n. is_cancelled n w.cancelled ≡ false) (sym next) c)
        (subst (λ n. is_cancelled n w.stopped ≡ false) (sym next') d) in
    subst
      (λ n.
        OrphanedSender C ctx n s cfg
          (stop_sender C true (commit_sender C t cfg ad (commit_sender C s cfg ad w))))
      next'
      (subst
        (λ n.
          OrphanedSender C n w.next_srv s cfg
            (stop_sender C true (commit_sender C t cfg ad (commit_sender C s cfg ad w))))
        next at_own)

-- From any state in which the sender does not run, and can be started with fresh handles, the daemon can
-- reach one in which it does not run, and yet a server goes on that was neither stopped nor cancelled and
-- that nobody holds: two calls of `StartSender` overlap, and `StopSender` stops the second server only.
pub double_start :
    (C : Crypto) (env : Env C) (w : World C) (cfg : TlsConfig C) (advert : Advert)
    → w.daemon.sender.running ≡ false
    → is_cancelled w.next_ctx w.cancelled ≡ false
    → is_cancelled w.next_srv w.stopped ≡ false
    → build_sender C env w.daemon.settings.sender w.daemon.sender_files ≡ ok (cfg, advert)
    → (end : System C env) × Reach C env (record { world = w; pending = [] }) end
      × OrphanedSender C w.next_ctx w.next_srv w.daemon.settings.sender cfg end.world
double_start C env w cfg advert off c d built =
    let s = w.daemon.settings.sender in
    let files = w.daemon.sender_files in
    let w1 = (begin_sender C true w).0 in
    let w2 = (begin_sender C true w1).0 in
    let s1 = w1.daemon.settings.sender in
    let (first, second) = both_begin C w off in
    let (on, same, ctx, srv, cancelled, stopped) = begun C w in
    let built1 : build_sender C env s1 w1.daemon.sender_files ≡ ok (cfg, advert) =
      subst (λ t. build_sender C env t w1.daemon.sender_files ≡ ok (cfg, advert)) (sym on)
        (build_sender-enabled C env true s w1.daemon.sender_files
          ∙ subst (λ fs. build_sender C env s fs ≡ ok (cfg, advert)) (sym same) built) in
    let p1 : Pending C env = sender s cfg advert in
    let p2 : Pending C env = sender s1 cfg advert in
    let w3 = commit C env p1 w2 in
    let w4 = commit C env p2 w3 in
    let orphan =
      commits_orphan C w.next_ctx w.next_srv s s1 cfg advert w2 ctx srv
        (subst (λ cs. is_cancelled w.next_ctx cs ≡ false) (sym cancelled) c)
        (subst (λ cs. is_cancelled w.next_srv cs ≡ false) (sym stopped) d) in
    (
      record { world = stop_sender C true w4; pending = [] },
      Reach.next
          (Reach.next
            (Reach.next
              (Reach.next
                (Reach.next Reach.here (Step.begins_sender true s files cfg advert first built))
                (Step.begins_sender true s1 w1.daemon.sender_files cfg advert second built1))
              (Step.commits (p2 ∷ []) p1 [] refl))
            (Step.commits [] p2 [] refl))
          (Step.acts (Atomic.stops_sender true)),
      orphan,
    )
