-- ===== src/Tests/Screens.antt =====
-- A terminal with plain widgets.
use m_tlsling.Base.{
  ℕ, suc, String, ◌<>◌, none, some, List, [], ◌≡◌, refl, if◌then◌else◌, ◌=ˢ◌, get_elem?, Bool-cases,
  inl, inr, eq_iff, arith, Result, ok, err, ap, sym, ℕ_discrete,
}
use m_tlsling.Base.Int.{ℤ, pos, negsuc}
use m_tlsling.Server.Types.{Bytes}
use m_tlsling.Daemon.Types.{Settings}
use m_tlsling.Api.{Decoders}
use m_tlsling.Api.Client.{Encoders}
use m_tlsling.Api.Client.Refinement.{IsFaithful}
use m_tlsling.Tests.Daemons.{settings}
use m_tlsling.Tests.Requests.{empty_decoders, encoders, reader, encoders-IsFaithful}
use m_tlsling.Tui.Widgets.{Item, Widgets, KeepsItems}

abbrev pub Rows : Type 0
Rows = List Item × ℕ

abbrev select_row : ℤ → Rows → Rows
select_row (pos i) (is, _) = (is, i)
select_row (negsuc i) l = l

-- An event is the name of a key; the empty text has none.
abbrev pub plain : Widgets
plain = record {
  Event = String;
  key_name = λ e. if e =ˢ "" then none else some e;
  Command = Unit {0};
  ListModel = Rows;
  new_list = ([], 0);
  items = λ l. l.0;
  index = λ l. pos l.1;
  selected_item = λ l. get_elem? l.0 l.1;
  set_items = λ is l. (is, l.1);
  select = select_row;
  set_size = λ w h l. l;
  update_list = λ e l. if e =ˢ "down" then ((l.0, suc l.1), tt) else (l, tt);
  Input = String;
  new_input = "";
  value = λ i. i;
  set_value = λ v i. v;
  focus = λ i. i;
  update_input = λ e i. (i <> e, tt);
  Picker = Unit {0};
  new_picker = tt;
  init_picker = tt;
  set_height = λ h p. p;
  update_picker = λ e p. (p, tt);
  did_select_file = λ e p. if e =ˢ "enter" then some "/srv/hello.md" else none;
}

select_row-items : (i : ℤ) (l : Rows) → (select_row i l).0 ≡ l.0
select_row-items (pos i) l = refl
select_row-items (negsuc i) l = refl

down-items : (e : String) (l : Rows) → (plain.update_list e l).0.0 ≡ l.0
down-items e l = ground arith

pub plain-KeepsItems : KeepsItems plain
plain-KeepsItems = record {
  new_list = refl;
  set_items = λ is l. refl;
  select = select_row-items;
  set_size = λ w h l. refl;
  update_list = down-items;
  selected_item = λ l it e. (l.1, e);
}

String-discrete : Discrete String
String-discrete s t = elim (Bool-cases (s =ˢ t)) [
  | inl e ↦ yes ((eq_iff s t).0 e)
  | inr e ↦ no (λ p. ground (arith, (eq_iff s t).1 p))
]

pub Settings-discrete : Discrete Settings
Settings-discrete = hlevel (String-discrete, ℕ_discrete)

-- JSON that knows the settings `settings` only.
abbrev pub encode_settings : Settings → Result Bytes
encode_settings s = elim (Settings-discrete s settings) [ yes p ↦ ok [] | no h ↦ err "unsupported" ]

abbrev pub settings_encoders : Encoders
settings_encoders = record { files = encoders.files; settings = encode_settings }

abbrev pub settings_decoders : Decoders
settings_decoders = record { files = empty_decoders.files; settings = λ body. ok settings }

encode_settings-decoded :
    (s : Settings) (bytes : Bytes)
    → encode_settings s ≡ ok bytes
    → settings_decoders.settings bytes ≡ ok s
encode_settings-decoded s bytes e = by_decision (Settings-discrete s settings) e
  where
    by_decision :
        (d : Dec (s ≡ settings))
        → (elim d as (λ _. Result Bytes) [ yes p ↦ ok [] | no h ↦ err "unsupported" ]) ≡ ok bytes
        → ok settings ≡ ok s
    by_decision (yes p) e = ap ok (sym p)
    by_decision (no h) e = cc

pub encode_settings_known : encode_settings settings ≡ ok []
encode_settings_known = by_decision (Settings-discrete settings settings)
  where
    by_decision :
        (d : Dec (settings ≡ settings))
        → (elim d as (λ _. Result Bytes) [ yes p ↦ ok [] | no h ↦ err "unsupported" ]) ≡ ok []
    by_decision (yes p) = refl
    by_decision (no h) = absurd (h refl)

pub settings_encoders-IsFaithful : IsFaithful settings_decoders settings_encoders reader
settings_encoders-IsFaithful = record {
  files = encoders-IsFaithful.files;
  settings = encode_settings-decoded;
  snapshot = encoders-IsFaithful.snapshot;
  read_settings = encoders-IsFaithful.read_settings;
  text = encoders-IsFaithful.text;
}
