-- ===== src/Sdp/Block.antt =====
-- nomos-sdp/src/ledger.rs, `SdpLedger`: what is held back for a block is stored when the block is marked,
-- and dropped when it is discarded.
use nomos_node.Prelude.{
  ℕ, Option, none, some, List, [], ◌∷◌, Outcome, ok, err, panic, timeout, nat_eq,
}
use nomos_node.Sdp.Action.{Action, ◌>>=◌, ◌>>◌, pure, fail}
use nomos_node.Prelude.Map
use nomos_node.Prelude.Map.{Map, get, contains_key}
use nomos_node.Sdp.Types.{ProviderInfo, DeclarationUpdate}
use nomos_node.Sdp.Interfaces.{External, DeclarationsRepositoryError}
use nomos_node.Sdp.Pending.{
  SdpLedger, SdpLedgerError, declarations_repository, get_in, remove_in, values, drop_rewards, call,
}

module _ {Metadata Proof : Type 0} (ext : External Metadata Proof) where
  -- `if let Err(err) = .. { tracing::error!(..) }`
  abbrev log_error : Outcome SdpLedgerError (Unit {0}) → Outcome SdpLedgerError (Unit {0})
  log_error (err e) = ok tt
  log_error o = o

  abbrev logged :
      Action (SdpLedger ext) SdpLedgerError (Unit {0})
      → Action (SdpLedger ext) SdpLedgerError (Unit {0})
  logged m s = (log_error (m s).0, (m s).1)

  -- `self.pending_declarations.get_mut(&block_number).and_then(|updates| updates.remove(&provider_id))`
  abbrev take_declaration : ℕ → ℕ → Action (SdpLedger ext) SdpLedgerError (Option DeclarationUpdate)
  take_declaration block_number provider s = (
    ok (get_in block_number provider s.pending_declarations),
    record s { pending_declarations = remove_in block_number provider s.pending_declarations },
  )

  abbrev store_declaration :
      Option DeclarationUpdate → Action (SdpLedger ext) SdpLedgerError (Unit {0})
  store_declaration none = pure tt
  store_declaration (some update) =
      logged (call ext declarations_repository (ext.update_declaration update))

  abbrev finish_mark :
      ℕ
      → ProviderInfo
      → Outcome DeclarationsRepositoryError (Unit {0})
      → Action (SdpLedger ext) SdpLedgerError (Unit {0})
  finish_mark block_number info (ok _) s =
      (take_declaration block_number info.provider_id >>= store_declaration) s
  finish_mark block_number info (err e) s =
      (take_declaration block_number info.provider_id >> fail (declarations_repository e)) s
  finish_mark block_number info panic s = (panic, s)
  finish_mark block_number info timeout s = (timeout, s)

  unfoldable pub mark_declaration_in_block :
      ℕ → ProviderInfo → Action (SdpLedger ext) SdpLedgerError (Unit {0})
  mark_declaration_in_block block_number info s =
      finish_mark block_number info (ext.update_provider_info info s.world).0
        (record s { world = (ext.update_provider_info info s.world).1 })

  -- The loop of `mark_in_block`.
  unfoldable pub mark_all : ℕ → List ProviderInfo → Action (SdpLedger ext) SdpLedgerError (Unit {0})
  mark_all block_number [] s = (ok tt, s)
  mark_all block_number (info ∷ infos) s =
      (logged (mark_declaration_in_block block_number info) >> mark_all block_number infos)
        (record s { pending_rewards = Map.remove info.provider_id s.pending_rewards })

  module _ (order : List ProviderInfo → List ProviderInfo) where
    -- The providers of the block, in the order in which the table is iterated.
    unfoldable pub mark_in_block : ℕ → Action (SdpLedger ext) SdpLedgerError (Unit {0})
    mark_in_block block_number s = elim (get block_number s.pending_providers) [
      | none ↦ (ok tt, s)
      | some updates ↦
          mark_all block_number (order (values updates))
            (record s { pending_providers = Map.remove block_number s.pending_providers })
    ]

    unfoldable pub discard_block : ℕ → (SdpLedger ext) → (SdpLedger ext)
    discard_block block_number s =
        let cleared = record s {
          pending_declarations = Map.remove block_number s.pending_declarations;
        } in
        elim (get block_number s.pending_providers) [
          | none ↦ cleared
          | some updates ↦ record cleared {
            pending_providers = Map.remove block_number s.pending_providers;
            pending_rewards = drop_rewards (order (values updates)) s.pending_rewards;
          }
        ]
