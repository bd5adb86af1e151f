-- ===== src/Producer/Fanout.antt =====
-- What a subscription hands on.
use fs_lib.Prelude.{
  List, [], ◌∷◌, ◌++◌, ◌≡◌, refl, if◌then◌else◌, Bytes, equal, Bool-cases, inl, inr,
}
use fs_lib.Producer.{channel_name, SubSignal, client_closed, stopped, message, new_subscriber}

-- The payloads on the channel, up to the end of the subscription.
abbrev pub payloads : List SubSignal → List Bytes
payloads [] = []
payloads (client_closed ∷ rest) = []
payloads (stopped ∷ rest) = []
payloads (message channel payload ∷ rest) =
    (if equal channel_name channel then payload ∷ [] else []) ++ payloads rest

abbrev pub hand_on : {S : Type 0} → (Bytes → S → S) → List Bytes → S → S
hand_on callback [] s = s
hand_on callback (b ∷ bs) s = hand_on callback bs (callback b s)

-- A subscriber hands on exactly the payloads of its channel that come before the subscription
-- stops or the client is closed, each once and in their order, whatever other channels carry.
pub new_subscriber-payloads :
    {S : Type 0} (callback : Bytes → S → S) (signals : List SubSignal) (s : S)
    → new_subscriber callback signals s ≡ hand_on callback (payloads signals) s
unfolding new_subscriber
new_subscriber-payloads callback [] s = refl
new_subscriber-payloads callback (client_closed ∷ rest) s = refl
new_subscriber-payloads callback (stopped ∷ rest) s = refl
new_subscriber-payloads callback (message channel payload ∷ rest) s =
    elim (Bool-cases (equal channel_name channel)) [
      | inl own ↦ rw own (new_subscriber-payloads callback rest (callback payload s))
      | inr other ↦ rw other (new_subscriber-payloads callback rest s)
    ]
