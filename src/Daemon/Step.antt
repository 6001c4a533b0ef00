-- ===== src/Daemon/Step.antt =====
-- The daemon under concurrent calls: what may happen between two points at which nobody holds the lock.
-- A start that has passed its first critical section waits here for its second.
pub mod Reachable
pub mod DoubleStart
pub mod StaleExit
use m_tlsling.Base.{ℕ, ◌≡◌, String, Bool, Option, none, some, List, ◌∷◌, ◌++◌, Result, ok, err}
use m_tlsling.Base.Int.{ℤ}
use m_tlsling.Config.{Crypto, Certificate, TlsConfig}
use m_tlsling.Discovery.{Advert}
use m_tlsling.Server.Types.{ConnEvent}
use m_tlsling.Daemon.Types.{Settings, SenderSettings, ListenerSettings, ListenerEvent}
use m_tlsling.Daemon.State.{World, Env, with_settings, with_listener}
use m_tlsling.Daemon.Normalize.{normalize_settings}
use m_tlsling.Daemon.Sender.{
  set_sender_files, set_sender_error, apply_sender_event, begin_sender, build_sender, commit_sender,
  stop_sender, mark_sender_stopped,
}
use m_tlsling.Daemon.Listener.{
  is_old_advert, set_listener_error, add_listener_event, begin_listener, build_listener,
  commit_listener, stop_listener, mark_listener_stopped,
}

module _ (C : Crypto) (env : Env C) where
  -- A sender or a listener that has been built.
  pub data Pending : Type 0 where
    sender : SenderSettings → TlsConfig C → Advert → Pending
    listener : ListenerSettings → Certificate C → Option C.CertPool → Pending

  pub record System : Type 0 where
    pub world : World C
    pub pending : List Pending

  -- The step that a pending start still has to make.
  abbrev pub commit : Pending → World C → World C
  commit (sender s cfg advert) w = commit_sender C s cfg advert w
  commit (listener s cert roots) w = commit_listener C s cert roots w

  -- The steps that are one critical section. Any of the program's goroutines may make one at any time.
  pub data Atomic (w : World C) : World C → Type 0 where
    sets_files : (files : List String) → Atomic w (set_sender_files C files w)
    sets_settings : (s : Settings) → Atomic w (with_settings C (normalize_settings s) w)
    fails_sender : (e : String) → Atomic w (set_sender_error C e w)
    fails_listener : (e : String) → Atomic w (set_listener_error C e w)
    stops_sender : (update : Bool) → Atomic w (stop_sender C update w)
    stops_listener : (update : Bool) → Atomic w (stop_listener C update w)
    marks_sender : (srv : ℕ) → Atomic w (mark_sender_stopped C srv w)
    marks_listener : Atomic w (mark_listener_stopped C w)
    hears_event : (ev : ConnEvent) → Atomic w (apply_sender_event C ev w)
    hears_advert :
        (id : String) (ts : ℤ)
        → Atomic w (
            with_listener C
              (record (w.daemon.listener) { seen = (is_old_advert id ts w.daemon.listener.seen).1 })
              w)
    notes : (ev : ListenerEvent) → Atomic w (add_listener_event C ev w)
    cancels : (ctx : ℕ) → Atomic w (record w { cancelled = ctx ∷ w.cancelled })

  pub data Step : System → System → Type 0 where
    acts :
        {w w' : World C} {ps : List Pending}
        → Atomic w w'
        → Step (record { world = w; pending = ps }) (record { world = w'; pending = ps })
    begins_sender :
        {w w' : World C} {ps : List Pending} (update : Bool) (s : SenderSettings)
        (files : List String) (cfg : TlsConfig C) (advert : Advert)
        → begin_sender C update w ≡ (w', some (s, files))
        → build_sender C env s files ≡ ok (cfg, advert)
        → Step
            (record { world = w; pending = ps })
            (record { world = w'; pending = sender s cfg advert ∷ ps })
    begins_listener :
        {w w' : World C} {ps : List Pending} (update : Bool) (s : ListenerSettings)
        (cert : Certificate C) (roots : Option C.CertPool)
        → begin_listener C update w ≡ (w', some s)
        → build_listener C env s ≡ ok (cert, roots)
        → Step
            (record { world = w; pending = ps })
            (record { world = w'; pending = listener s cert roots ∷ ps })
    finds_running :
        {w w' : World C} {ps : List Pending} (update : Bool)
        → begin_sender C update w ≡ (w', none)
        → Step (record { world = w; pending = ps }) (record { world = w'; pending = ps })
    finds_listening :
        {w w' : World C} {ps : List Pending} (update : Bool)
        → begin_listener C update w ≡ (w', none)
        → Step (record { world = w; pending = ps }) (record { world = w'; pending = ps })
    commits :
        {w : World C} {ps : List Pending} (before : List Pending) (p : Pending)
        (behind : List Pending)
        → ps ≡ before ++ (p ∷ behind)
        → Step
            (record { world = w; pending = ps })
            (record { world = commit p w; pending = before ++ behind })

  pub data Reach (s : System) : System → Type 0 where
    here : Reach s s
    next : {t u : System} → Reach s t → Step t u → Reach s u
