-- ===== src/Client/Sender/Laws.antt =====
-- Where the changesets that the sender takes end up.
use synddb.Prelude.{◌≡◌, Bool, true, false, Option, some, List, [], ◌∷◌, All}
use synddb.Client.Recovery.{Changeset}
use synddb.Client.Sender.{World, Event, received, closed, shutdown}
use synddb.Client.Sender.Ledger.{AfterEpoch, Works, Conserves}

-- The world after a flush, whose buffer is empty.
abbrev pub Flushed : World → Option World → Type 0
Flushed w o = (w' : World) × (o ≡ some w') × Conserves [] w w' × (w'.sender.buffer ≡ [])

-- The changesets that the loop takes from its channel.
abbrev pub taken : List Event → List Changeset
taken [] = []
taken (received env c ∷ events) = c ∷ taken events
taken (closed ∷ events) = []
taken (shutdown env cs ∷ events) = cs

abbrev pub Sound : Event → Type 0
Sound (received env c) = Works env × AfterEpoch c
Sound closed = Unit {0}
Sound (shutdown env cs) = Works env × All AfterEpoch cs

-- Whether the loop ends by a shutdown.
abbrev pub shuts_down : List Event → Bool
shuts_down [] = false
shuts_down (received env c ∷ events) = shuts_down events
shuts_down (closed ∷ events) = false
shuts_down (shutdown env cs ∷ events) = true
