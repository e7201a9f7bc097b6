-- ===== src/Sip/Holder.antt =====
-- addon/urmet-gateway/urmet_gateway/sip/holder.py: the client that every command speaks through.
use urmet_ha.Prelude.{Option, none, some}
use urmet_ha.Domain.Errors.{Outcome, ok, raised, no_client}

pub record ClientHolder (T : Type 0) : Type 0 where
  pub client : Option T

-- `rebuilding_factory`: the client built at once, until it is handed out.
pub record Factory (T : Type 0) : Type 0 where
  pub pending : Option T

module _ {T : Type 0} where
  -- `ClientHolder.set`
  unfoldable pub set : T → ClientHolder T → ClientHolder T
  set c h = record { client = some c }

  -- `ClientHolder.current`
  unfoldable pub current : ClientHolder T → Outcome T
  current h = elim h.client [ none ↦ raised no_client | some c ↦ ok c ]

  -- `rebuilding_factory`, with the client that `build` made for it.
  unfoldable pub rebuilding_factory : T → Factory T
  rebuilding_factory first = record { pending = some first }

  -- A call of the factory, with what `build` would make now.
  unfoldable pub factory : T → Factory T → T × Factory T
  factory fresh f = elim f.pending [ none ↦ (fresh, f) | some c ↦ (c, record { pending = none }) ]
