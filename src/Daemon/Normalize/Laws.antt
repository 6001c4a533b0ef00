-- ===== src/Daemon/Normalize/Laws.antt =====
-- What normalising keeps and drops.
use m_tlsling.Base.{
  String, ◌≡◌, refl, ap, inl, inr, false, not, ◌&&◌, ◌||◌, List, [], ◌∷◌, ◌++◌, ◌=ˢ◌, has, eq_iff,
  arith, Bool-cases,
}
use m_tlsling.Base.Int.{pos, ◌≤ℤ◌}
use m_tlsling.Daemon.Types.{Settings}
use m_tlsling.Daemon.Normalize.{normalize_from, normalize_files, normalize_settings}

-- No path is empty, and none stands twice.
abbrev pub AreNormal : List String → Type 0
AreNormal [] = Unit
AreNormal (f ∷ fs) = ((f =ˢ "") ≡ false) × (has f fs ≡ false) × AreNormal fs

has-normalize_from :
    (g : String) (seen fs : List String)
    → has g (normalize_from seen fs) ≡ (not (g =ˢ "" || has g seen) && has g fs)
unfolding normalize_from
has-normalize_from g seen [] = ground arith
has-normalize_from g seen (f ∷ fs) = ground (
  arith,
  eq_iff f g,
  eq_iff f "",
  eq_iff g "",
  has-normalize_from g seen fs,
  has-normalize_from g (f ∷ seen) fs,
)

normalize_from-AreNormal : (seen fs : List String) → AreNormal (normalize_from seen fs)
unfolding normalize_from
normalize_from-AreNormal seen [] = tt
normalize_from-AreNormal seen (f ∷ fs) = elim (Bool-cases (f =ˢ "" || has f seen)) [
  | inl k ↦ rw k (normalize_from-AreNormal seen fs)
  | inr k ↦ rw k (
    ground arith,
    ground (arith, has-normalize_from f (f ∷ seen) fs, eq_iff f f),
    normalize_from-AreNormal (f ∷ seen) fs,
  )
]

abbrev NoneOf : List String → List String → Type 0
NoneOf seen [] = Unit
NoneOf seen (f ∷ fs) = (has f seen ≡ false) × NoneOf seen fs

NoneOf-cons :
    (f : String) (seen fs : List String) → has f fs ≡ false → NoneOf seen fs → NoneOf (f ∷ seen) fs
unfolding has
NoneOf-cons f seen [] a n = tt
NoneOf-cons f seen (g ∷ gs) a n =
    (ground (arith, eq_iff f g, eq_iff g f), NoneOf-cons f seen gs (ground arith) n.1)

normalize_from-AreNormal_id :
    (seen fs : List String) → AreNormal fs → NoneOf seen fs → normalize_from seen fs ≡ fs
unfolding normalize_from
normalize_from-AreNormal_id seen [] a n = refl
normalize_from-AreNormal_id seen (f ∷ fs) a n =
    rw (a.0, n.0)
      (ap (◌∷◌ f) (normalize_from-AreNormal_id (f ∷ seen) fs a.2 (NoneOf-cons f seen fs a.1 n.1)))

NoneOf-nil : (fs : List String) → NoneOf [] fs
unfolding has
NoneOf-nil [] = tt
NoneOf-nil (f ∷ fs) = (refl, NoneOf-nil fs)

-- The list that `SetSenderFiles` stores has no empty path and no path twice; it has every other path
-- of the given list and no more; and normalising it again changes nothing.
pub normalize_files_lem :
    (fs : List String)
    → AreNormal (normalize_files fs)
      × ((g : String) → has g (normalize_files fs) ≡ (not (g =ˢ "") && has g fs))
      × (normalize_files (normalize_files fs) ≡ normalize_files fs)
unfolding normalize_files
normalize_files_lem fs = (
  normal,
  (λ g. ground (arith, has-normalize_from g [] fs)),
  normalize_from-AreNormal_id [] (normalize_from [] fs) normal (NoneOf-nil _),
)
  where
    normal : AreNormal (normalize_from [] fs)
    normal = normalize_from-AreNormal [] fs

-- Files that are added behind others never move those: what is kept of the first list comes first.
pub normalize_from-append :
    (seen fs gs : List String)
    → (more : List String) × (normalize_from seen (fs ++ gs) ≡ normalize_from seen fs ++ more)
unfolding normalize_from
normalize_from-append seen [] gs = (normalize_from seen gs, refl)
normalize_from-append seen (f ∷ fs) gs = elim (Bool-cases (f =ˢ "" || has f seen)) [
  | inl k ↦ let (more, e) = normalize_from-append seen fs gs in (more, rw k e)
  | inr k ↦ let (more, e) = normalize_from-append (f ∷ seen) fs gs in (more, rw k (ap (◌∷◌ f) e))
]

-- The settings that the daemon works with.
pub record IsUsable (s : Settings) : Type 0 where
  pub interval : (s.sender.broadcast_interval_seconds ≤ℤ pos 0) → ⊥
  pub out_dir : (s.listener.out_dir =ˢ "") ≡ false

-- Normalised settings have a positive interval and an output directory.
pub normalize_settings-IsUsable : (s : Settings) → IsUsable (normalize_settings s)
unfolding normalize_settings
normalize_settings-IsUsable s = record { interval = ground arith; out_dir = named }
  where
    named : ((normalize_settings s).listener.out_dir =ˢ "") ≡ false
    named = elim (Bool-cases (s.listener.out_dir =ˢ "")) [
      | inl k ↦ rw (k, normalize_settings) refl
      | inr k ↦ rw (k, normalize_settings) k
    ]

-- Usable settings are left as they are.
pub normalize_settings_id : (s : Settings) → IsUsable s → normalize_settings s ≡ s
unfolding normalize_settings
normalize_settings_id s u = ground (arith, u.interval, u.out_dir)
