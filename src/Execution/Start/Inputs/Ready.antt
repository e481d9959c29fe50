-- ===== src/Execution/Start/Inputs/Ready.antt =====
-- reconciliation_execution_service.py: the snapshot and the channels of a batch that
-- `confirm_batch` has passed.
use mathlib.Core.Path.{subst}
use raj_data_handle.Base.{
  ℕ, ◌≡◌, refl, sym, ap, ◌∙◌, ◌⊎◌, inl, inr, String, true, false, List, [], ◌∷◌, ok, Bool-cases,
  ◌==◌,
}
use raj_data_handle.Text.{is_empty, strip}
use raj_data_handle.Value.{
  Value, null, bool, int, float, text, list, dict, Items, nil, item, Fields, end, field, get,
  item_at, stripped, str_or_empty, truthy,
}
use raj_data_handle.Remote.{Channel}
use raj_data_handle.Batch.{Batch, Store}
use raj_data_handle.Batch.Validation.Executable.{
  AreChannels, ListsChannels, HasTemplate, IsDetection, validated-IsDetection,
}
use raj_data_handle.BatchState.{queued}
use raj_data_handle.Batch.Service.{confirm_batch, requested}
use raj_data_handle.Batch.Service.Confirm.{IsConfirmed, confirm-IsConfirmed}
use raj_data_handle.Batch.Transition.{moved}
use raj_data_handle.Execution.Start.Inputs.{
  snapshot_of, snapshot_in, template_snapshot, channel_at, channels_in, channels_of,
  selected_channels,
}

-- what is not null stands in the dict
item_at-get : (key : String) (d : Fields) → (item_at key d ≡ ok (get key d)) ⊎ (get key d ≡ null)
unfolding get item_at
item_at-get key end = inr refl
item_at-get key (field k v d) = elim (Bool-cases (k == key)) [
  | inl e ↦ rw e (inl refl)
  | inr e ↦ rw e (item_at-get key d)
]

given-item_at :
    (key : String) (d : Fields)
    → is_empty (stripped (get key d)) ≡ false
    → item_at key d ≡ ok (get key d)
unfolding stripped str_or_empty truthy strip
given-item_at key d h = elim (item_at-get key d) [
  | inl e ↦ e
  | inr e ↦ let wrong : true ≡ false = sym (ap (λ v. is_empty (stripped v)) e) ∙ h in cc
]

template-given :
    (d : Fields) (v : Value) → HasTemplate v → (x : Fields × Fields) × (snapshot_of d v ≡ ok x)
unfolding snapshot_of
template-given d (dict s template) h = ((d, template), refl)
template-given d null h = elim h [ ]
template-given d (bool b) h = elim h [ ]
template-given d (int n) h = elim h [ ]
template-given d (float t n) h = elim h [ ]
template-given d (text t) h = elim h [ ]
template-given d (list t n) h = elim h [ ]

snapshot-given : (v : Value) → IsDetection v → (x : Fields × Fields) × (snapshot_in v ≡ ok x)
unfolding snapshot_in
snapshot-given (dict s d) h = template-given d (get "template" d) h
snapshot-given null h = elim h [ ]
snapshot-given (bool b) h = elim h [ ]
snapshot-given (int n) h = elim h [ ]
snapshot-given (float t n) h = elim h [ ]
snapshot-given (text t) h = elim h [ ]
snapshot-given (list t n) h = elim h [ ]

channel-given :
    (s : String) (d : Fields)
    → is_empty (stripped (get "code" d)) ≡ false
    → is_empty (stripped (get "label" d)) ≡ false
    → (c : Channel) × (channel_at (dict s d) ≡ ok c)
unfolding channel_at
channel-given s d code label =
    rw (given-item_at "code" d code) (rw (given-item_at "label" d label) (_, refl))

channels-given :
    (items : Items)
    → AreChannels items
    → (channels : List Channel) × (channels_in items ≡ ok channels)
unfolding channels_in
channels-given nil h = ([], refl)
channels-given (item (dict s d) rest) (code, label, h) =
    let (c, read) = channel-given s d code label in
    let (channels, others) = channels-given rest h in (c ∷ channels, rw read (rw others refl))
channels-given (item null rest) h = elim h [ ]
channels-given (item (bool b) rest) h = elim h [ ]
channels-given (item (int n) rest) h = elim h [ ]
channels-given (item (float t n) rest) h = elim h [ ]
channels-given (item (text t) rest) h = elim h [ ]
channels-given (item (list t n) rest) h = elim h [ ]

listed-given :
    (v : Value)
    → ListsChannels v
    → (c : Channel) × (rest : List Channel) × (channels_of v ≡ ok (c ∷ rest))
unfolding channels_of channels_in
listed-given (list s (item (dict t d) rest)) (code, label, h) =
    let (c, read) = channel-given t d code label in
    let (channels, others) = channels-given rest h in (c, channels, rw read (rw others refl))
listed-given (list s (item null rest)) h = elim h [ ]
listed-given (list s (item (bool b) rest)) h = elim h [ ]
listed-given (list s (item (int n) rest)) h = elim h [ ]
listed-given (list s (item (float t n) rest)) h = elim h [ ]
listed-given (list s (item (text t) rest)) h = elim h [ ]
listed-given (list s (item (list t n) rest)) h = elim h [ ]
listed-given (list s nil) h = elim h [ ]
listed-given null h = elim h [ ]
listed-given (bool b) h = elim h [ ]
listed-given (int n) h = elim h [ ]
listed-given (float t n) h = elim h [ ]
listed-given (text t) h = elim h [ ]
listed-given (dict t n) h = elim h [ ]

list-given :
    (d : Fields)
    → ListsChannels (get "selectedChannels" d)
    → (c : Channel) × (rest : List Channel) × (selected_channels d ≡ ok (c ∷ rest))
unfolding selected_channels
list-given d h = elim (item_at-get "selectedChannels" d) [
  | inl e ↦ rw e (listed-given (get "selectedChannels" d) h)
  | inr e ↦ absurd (subst ListsChannels e h)
]

-- what the execution reads of a batch's parameters
pub record IsReady (b : Batch) : Type 0 where
  pub snapshot : Fields × Fields
  pub template : template_snapshot b.parameters_json ≡ ok snapshot
  pub first : Channel
  pub rest : List Channel
  pub channels : selected_channels b.parameters_json ≡ ok (first ∷ rest)

parameters-IsReady :
    (b : Batch)
    → IsDetection (get "templateDetection" b.parameters_json)
    → ListsChannels (get "selectedChannels" b.parameters_json)
    → IsReady b
unfolding template_snapshot
parameters-IsReady b detection channels =
    let (snapshot, template) =
      snapshot-given (get "templateDetection" b.parameters_json) detection in
    let (first, rest, read) = list-given b.parameters_json channels in
    record { snapshot = snapshot; template = template; first = first; rest = rest; channels = read }

moved-IsReady :
    (actor now : ℕ) (b : Batch) → IsReady b → IsReady (moved queued now (requested actor b))
unfolding moved
moved-IsReady actor now b r = record {
  snapshot = r.snapshot;
  template = r.template;
  first = r.first;
  rest = r.rest;
  channels = r.channels;
}

-- A batch that confirm_batch returns was waiting for confirmation, passed the validation and is
-- stored as queued, and the execution finds in its parameters what it goes on with: the snapshot of
-- a template and at least one channel.
pub confirm-IsReady :
    (id : String) (actor now : ℕ) (s t : Store) (b : Batch)
    → confirm_batch id actor now s ≡ ok (b, t)
    → IsConfirmed id actor now s b t × IsReady b
confirm-IsReady id actor now s t b h =
    let r = confirm-IsConfirmed id actor now s t b h in
    let (detection, channels) = validated-IsDetection r.previous r.valid in
    (
      r,
      subst IsReady (sym r.returned)
          (moved-IsReady actor now r.previous (parameters-IsReady r.previous detection channels)),
    )
