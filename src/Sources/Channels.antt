-- ===== src/Sources/Channels.antt =====
-- The channels of a Bitfinex connection: that each has the name of a known symbol, throughout.
use Prim.Native.String.{String}
use crypto_data_aggregator.Prelude.{
  inl, inr, refl, ◌≡◌, Option, none, some, List, All, Bool-cases, ◌&&◌,
}
use crypto_data_aggregator.Prelude.Int.{ℤ, int_order}
use crypto_data_aggregator.Prelude.Order.{text_order, eq}
use crypto_data_aggregator.Prelude.Dict.{get, All-put, All-get}
use crypto_data_aggregator.Float.{Float}
use crypto_data_aggregator.Python.{Result, ok, raise, Json, Python, is_dict}
use crypto_data_aggregator.Python.Results.{
  Ensures, holds, raises, IsNoneOr-imp, Ensures-read, Ensures-bind,
}
use crypto_data_aggregator.Rows.{Trade}
use crypto_data_aggregator.Sources.{Emission, Session}
use crypto_data_aggregator.Sources.Yields.{Yields, Any, on_rows-Yields}
use crypto_data_aggregator.Sources.Trades.{
  IsTradeOf, IsKnown, canon-IsKnown, canonical_of-Ensures, bitfinex-IsTradeOf,
}
use crypto_data_aggregator.Sources.Bitfinex

-- The names on Bitfinex's channels.
abbrev pub AreKnown : (String → Option String) → List (ℤ × String) → Type 0
AreKnown canon chan = All (λ c. (native : String) × (canon native ≡ some c.1)) chan

module _ (session : Session) where
  with_chan-Yields {κ μ} :
      {B : Type κ} (Q : B → Type μ) (chan : List (ℤ × String)) (e : Emission B (Unit {0}))
      → AreKnown session.canon chan
      → Yields Q Any e
      → Yields Q (AreKnown session.canon) (Bitfinex.with_chan chan e)
  with_chan-Yields Q chan (bs, raise x) h k = (k.0, raises)
  with_chan-Yields Q chan (bs, ok s) h k = (k.0, holds h)

  on_known-Yields {κ μ} :
      {B : Type κ} (Q : B → Type μ) (chan : List (ℤ × String)) (r : Result (Option String))
      (f : String → Emission B (Unit {0}))
      → AreKnown session.canon chan
      → Ensures (IsKnown session) r
      → ((c : String) → (native : String) × (session.canon native ≡ some c) → Yields Q Any (f c))
      → Yields Q (AreKnown session.canon) (Bitfinex.on_known chan r f)
  on_known-Yields Q chan (raise e) f h k g = (tt, raises)
  on_known-Yields Q chan (ok none) f h k g = (tt, holds h)
  on_known-Yields Q chan (ok (some c)) f h (holds k) g = with_chan-Yields Q chan (f c) h (g c k)

  get-IsKnown :
      (cid : ℤ) (chan : List (ℤ × String)) (o : Option String)
      → get cid chan ≡ o
      → AreKnown session.canon chan
      → IsKnown session o
  get-IsKnown cid chan none e h = tt
  get-IsKnown cid chan (some c) e h = All-get _ cid c chan e h

module _ {ℓ} {F : Type ℓ} ⦃fl : Float F⦄ ⦃py : Python F⦄ (session : Session) where
  subscribed_canonical-IsKnown :
      (msg : Json F) → Ensures (IsKnown session) (Bitfinex.subscribed_canonical session msg)
  unfolding Bitfinex.subscribed_canonical
  subscribed_canonical-IsKnown msg = Ensures-read _ λ _. Ensures-read _ λ s.
      elim (Bool-cases (Bitfinex.is_named (session.canon s))) [
        | inl e ↦ rw e (holds (canon-IsKnown session s _ refl))
        | inr e ↦ rw e (Ensures-read _ λ pair. canonical_of-Ensures session pair)
      ]

  note_channel-AreKnown :
      (known : Option String) (msg : Json F) (chan : List (ℤ × String))
      → IsKnown session known
      → AreKnown session.canon chan
      → Ensures (AreKnown session.canon) (Bitfinex.note_channel known msg chan)
  unfolding Bitfinex.note_channel
  note_channel-AreKnown none msg chan k h = holds h
  note_channel-AreKnown (some canonical) msg chan k h = elim (Bool-cases (eq canonical "")) [
    | inl e ↦ rw e (holds h)
    | inr e ↦ rw e (Ensures-read _ λ cid. holds (All-put _ cid canonical chan k h))
  ]

  on_event-AreKnown :
      (channel : String) (msg : Json F) (chan : List (ℤ × String))
      → AreKnown session.canon chan
      → Ensures (AreKnown session.canon) (Bitfinex.on_event channel session msg chan)
  unfolding Bitfinex.on_event
  on_event-AreKnown channel msg chan h = Ensures-read _ λ event. Ensures-read _ λ same.
      elim (Bool-cases (event && same)) [
        | inl e ↦ rw e (
            Ensures-bind (subscribed_canonical-IsKnown msg)
              λ known k. note_channel-AreKnown known msg chan k h)
        | inr e ↦ rw e (holds h)
      ]

  channel_canonical-IsKnown :
      (chan : List (ℤ × String)) (msg : Json F)
      → AreKnown session.canon chan
      → Ensures (IsKnown session) (Bitfinex.channel_canonical chan msg)
  unfolding Bitfinex.channel_canonical
  channel_canonical-IsKnown chan msg h =
      Ensures-read _ λ cid. holds (get-IsKnown session cid chan _ refl h)

  pub on_trade_message-Yields {κ} :
      (Q : Trade F → Type κ)
      → ((t : Trade F) → IsTradeOf "bitfinex" session t → Q t)
      → (chan : List (ℤ × String)) (msg : Json F) → AreKnown session.canon chan
      → Yields Q (AreKnown session.canon) (Bitfinex.on_trade_message session chan msg)
  unfolding Bitfinex.on_trade_message
  on_trade_message-Yields Q f chan msg h = elim (Bool-cases (is_dict msg)) [
    | inl e ↦ rw e (tt, on_event-AreKnown "trades" msg chan h)
    | inr e ↦ elim (Bool-cases (Bitfinex.is_data msg)) [
      | inl d ↦
          rw (e, d)
            (on_known-Yields session Q chan _ _ h (channel_canonical-IsKnown chan msg h) λ c k.
              on_rows-Yields Q _ _ λ i r. IsNoneOr-imp _ f (bitfinex-IsTradeOf session c k i r))
      | inr d ↦ rw (e, d) (tt, holds h)
    ]
  ]
