-- ===== src/UseCases/Conservation/Calls.antt =====
-- Sequences of calls of the use case on one store.
use jungle_challenge.Common.{
  ◌≡◌, ◌≢◌, refl, sym, ◌∙◌, inl, inr, Bool, String, Option, none, some, List, [], ◌∷◌, ok, err,
  arith, Result, ◌==◌, string_eq, if◌then◌else◌, str_iff,
}
use jungle_challenge.Application.Action.{System, World}
use jungle_challenge.Application.Fault.{Fault}
use jungle_challenge.Application.Rules.{After}
use jungle_challenge.Money.Decimal.{Decimals}
use jungle_challenge.Persistence.Laws.{SameBooks, updated}
use jungle_challenge.Persistence.Repositories.{find_wallet, is_previous, overwrite_wallet}
use jungle_challenge.Persistence.Store.{Store}
use jungle_challenge.UseCases.Command.{
  ProcessWagerTransactionCommand, ProcessWagerTransactionResult,
}
use jungle_challenge.UseCases.Conservation.{
  IsReconciled, found_id, found_after_saving, found_covers, posting_covers, booking-Step,
}
use jungle_challenge.UseCases.Posting.{booking, Posted}
use jungle_challenge.UseCases.Process.{execute}
use jungle_challenge.UseCases.Process.Effects.{Called, execute-Called}
use jungle_challenge.Wagering.State.{WagerTransaction}
use jungle_challenge.Wagering.Transaction.{requires_reference}
use jungle_challenge.Wagering.Vocabulary.{LedgerDirection, direction_eq}
use jungle_challenge.Wallet.{Wallet, Movement, debit, credit}
use jungle_challenge.Wallet.Entry.{WalletLedgerEntry, create}
use jungle_challenge.Wallet.Replay.{Step-Stepped}

module _ {V : Type 0} ⦃D : Decimals V⦄ where
  -- The calls that reach the store, one after the other, each with the clock and the ids it is given.
  unfoldable pub execute_all : List (System × ProcessWagerTransactionCommand) → World V → World V
  execute_all [] w = w
  execute_all ((sys, command) ∷ calls) w = execute_all calls ((execute sys command w).1)

  -- Two wallets found under one id are the same.
  found_once :
      (s : Store V) (a b : String) {v w : Wallet V}
      → find_wallet a s ≡ some v
      → find_wallet b s ≡ some w
      → w.id ≡ v.id
      → w ≡ v
  found_once s a b f g e = let i = found_id a s f in let j = found_id b s g in cc

  after_saving_none :
      (moved : Wallet V) (found : Option (Wallet V))
      → updated (is_previous moved) (overwrite_wallet moved) found ≡ none
      → found ≡ none
  after_saving_none moved none e = refl
  after_saving_none moved (some w) e = cc

  -- The entry of a wallet that is found belongs to no id that has no wallet.
  elsewhere :
      (wallet : Wallet V) (entry : WalletLedgerEntry V) (key id : String) (s : Store V)
      → find_wallet key s ≡ some wallet
      → find_wallet id s ≡ none
      → entry.wallet_id ≡ wallet.id
      → entry.wallet_id ≢ id
  elsewhere wallet entry key id s found gone e q = let i = found_id key s found in cc

  pub Posted-IsReconciled :
      {tx : WagerTransaction V} {reference : Option (WagerTransaction V)} {wallet moved : Wallet V}
      {d : LedgerDirection} {m : Movement V} {entry : WalletLedgerEntry V} {s s' : Store V}
      (key : String)
      → find_wallet key s ≡ some wallet
      → Posted tx reference wallet moved d m entry s s'
      → IsReconciled s
      → IsReconciled s'
  Posted-IsReconciled {tx} {reference} {wallet} {moved} {d} {m} {entry} {s} {s'} key found p r =
      let c = r.covered key wallet found in
      let step =
        Step-Stepped c.sound
          (booking-Step d wallet m (requires_reference tx) p.booked c.fitting p.money_fits) in
      record {
        covered = λ id w f.
            found_covers moved s'.ledger (find_wallet id s)
              (λ other g.
                posting_covers wallet moved other entry s s' c (r.covered id other g)
                  (found_once s key id found g) step p.balance_fits p.ledger)
              (rw (sym (found_after_saving id moved s s' p.wallets)) f);
        strays = λ id f.
            let gone =
              after_saving_none moved (find_wallet id s)
                (rw (sym (found_after_saving id moved s s' p.wallets)) f) in
            let apart = elsewhere wallet entry key id s found gone (step.3) in
            let before = r.strays id gone in
            rw (p.ledger) (ground (arith, str_iff entry.wallet_id id, apart, before));
      }

  pub SameBooks-IsReconciled : {s s' : Store V} → SameBooks s s' → IsReconciled s → IsReconciled s'
  unfolding find_wallet
  SameBooks-IsReconciled b r = record {
    covered = λ id w f. rw (b.ledger) (r.covered id w (rw (sym (b.wallets)) f));
    strays = λ id f. rw (b.ledger) (r.strays id (rw (sym (b.wallets)) f));
  }

  Called-IsReconciled :
      (sys : System) (command : ProcessWagerTransactionCommand) {s s' : Store V}
      → Called sys command s s'
      → IsReconciled s
      → IsReconciled s'
  Called-IsReconciled sys command (inl b) r = SameBooks-IsReconciled b r
  Called-IsReconciled sys command (inr (wallet, tx, found, given, inl b)) r =
      SameBooks-IsReconciled b r
  Called-IsReconciled sys command
        (inr (wallet, tx, found, given, inr (reference, moved, d, m, e, p, _))) r =
      Posted-IsReconciled command.wallet_id found p r

  ended-IsReconciled :
      (sys : System) (command : ProcessWagerTransactionCommand) (s : Store V)
      (o : Result Fault ProcessWagerTransactionResult × World V)
      → After (λ _ w'. Called sys command s w'.store) (λ _ w'. w'.store ≡ s) o
      → IsReconciled s
      → IsReconciled (o.1.store)
  ended-IsReconciled sys command s (ok a, w') called r = Called-IsReconciled sys command called r
  ended-IsReconciled sys command s (err e, w') same r = rw same r

  -- A call, whatever its outcome: if each wallet of the store is not negative and its balance is the
  -- sum of its ledger entries, this holds after it.
  pub execute-IsReconciled :
      (sys : System) (command : ProcessWagerTransactionCommand) (w : World V)
      → IsReconciled w.store
      → IsReconciled ((execute sys command w).1.store)
  execute-IsReconciled sys command w r =
      ended-IsReconciled sys command w.store (execute sys command w) (execute-Called sys command w)
        r

  -- The entries of one wallet, newest first.
  abbrev pub entries_of : String → List (WalletLedgerEntry V) → List (WalletLedgerEntry V)
  entries_of id [] = []
  entries_of id (e ∷ es) = if e.wallet_id == id then e ∷ entries_of id es else entries_of id es

  -- A wallet's row and its entries are as they were.
  pub record IsLeftAlone (id : String) (s s' : Store V) : Type 0 where
    pub row : find_wallet id s' ≡ find_wallet id s
    pub entries : entries_of id s'.ledger ≡ entries_of id s.ledger

  booking_ids :
      (d : LedgerDirection) (w : Wallet V) (p : Movement V) (r : Bool) {w' : Wallet V}
      {e : WalletLedgerEntry V}
      → booking d w p r ≡ ok (w', e)
      → (w'.id ≡ w.id) × (e.wallet_id ≡ w.id)
  unfolding debit credit create
  booking_ids d w p r h = ground arith

  not_updated :
      (moved : Wallet V) (found : Option (Wallet V))
      → ((w : Wallet V) → found ≡ some w → w.id ≢ moved.id)
      → updated (is_previous moved) (overwrite_wallet moved) found ≡ found
  not_updated moved none h = refl
  not_updated moved (some w) h = let apart = h w refl in ground (arith, str_iff w.id moved.id)

  Called-IsLeftAlone :
      (sys : System) (command : ProcessWagerTransactionCommand) (id : String) {s s' : Store V}
      → id ≢ command.wallet_id
      → Called sys command s s'
      → IsLeftAlone id s s'
  unfolding find_wallet
  Called-IsLeftAlone sys command id apart (inl b) = record {
    row = rw (b.wallets) refl;
    entries = rw (b.ledger) refl;
  }
  Called-IsLeftAlone sys command id apart (inr (wallet, tx, found, given, inl b)) = record {
    row = rw (b.wallets) refl;
    entries = rw (b.ledger) refl;
  }
  Called-IsLeftAlone sys command id {s} {s'} apart
        (inr (wallet, tx, found, given, inr (reference, moved, d, m, e, p, _))) =
      let (i, j) = booking_ids d wallet m (requires_reference tx) p.booked in
      let k = found_id command.wallet_id s found in
      record {
        row =
            found_after_saving id moved s s' p.wallets
            ∙ not_updated moved (find_wallet id s)
                (λ w f g. apart (sym (found_id id s f) ∙ g ∙ i ∙ k));
        entries = rw (p.ledger) (ground (arith, str_iff e.wallet_id id, apart));
      }

  ended-IsLeftAlone :
      (sys : System) (command : ProcessWagerTransactionCommand) (id : String) (s : Store V)
      (o : Result Fault ProcessWagerTransactionResult × World V)
      → id ≢ command.wallet_id
      → After (λ _ w'. Called sys command s w'.store) (λ _ w'. w'.store ≡ s) o
      → IsLeftAlone id s (o.1.store)
  ended-IsLeftAlone sys command id s (ok a, w') apart called =
      Called-IsLeftAlone sys command id apart called
  ended-IsLeftAlone sys command id s (err e, w') apart same = record {
    row = rw same refl;
    entries = rw same refl;
  }

  -- A call touches no wallet but its own: the row and the ledger entries of any other wallet are as
  -- they were, whatever the outcome.
  pub execute-IsLeftAlone :
      (sys : System) (command : ProcessWagerTransactionCommand) (id : String) (w : World V)
      → id ≢ command.wallet_id
      → IsLeftAlone id w.store ((execute sys command w).1.store)
  execute-IsLeftAlone sys command id w apart =
      ended-IsLeftAlone sys command id w.store (execute sys command w) apart
        (execute-Called sys command w)
