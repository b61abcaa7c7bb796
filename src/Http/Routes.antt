-- ===== src/Http/Routes.antt =====
-- The other routes: src/infrastructure/http/controllers/wallets.controller.ts, providers.controller.ts
-- and getById of wagering.controller.ts. Each asks the guard, then the schema, then one use case. The
-- divergence that a reconciliation logs is what its observer is told (UseCases/Reconciliation).
use jungle_challenge.Common.{ℕ, String, Option, none, some, List, Result, ok, err}
use jungle_challenge.Application.Action.{System, World, Action}
use jungle_challenge.Application.Fault.{Fault}
use jungle_challenge.Auth.Guard.{Access, allowed, unauthenticated, forbidden}
use jungle_challenge.Http.{Reply, replied, catching, fault_of, http_exception}
use jungle_challenge.Money.Decimal.{Decimals}
use jungle_challenge.Money.{MoneyProps}
use jungle_challenge.Persistence.LedgerPages.{Paging}
use jungle_challenge.UseCases.Command.{invalid}
use jungle_challenge.UseCases.Creation.{CreateWalletResult, create_wallet}
use jungle_challenge.UseCases.Queries.{
  WalletView, LedgerPageView, WagerTransactionView, get_wallet, get_wallet_ledger, by_id,
  by_provider_and_external_id,
}
use jungle_challenge.UseCases.Reconciliation.{ReconciliationView, reconcile}

-- `createWalletSchema`
pub record CreateWalletBody : Type 0 where
  pub wallet_id : Option String
  pub player_id : String
  pub initial_balance : MoneyProps

-- `ledgerQuerySchema`
pub record LedgerQuery : Type 0 where
  pub cursor : Option String
  pub limit : ℕ

module _ {V A : Type 0} where
  abbrev answer : ℕ → Result Fault A × World V → Reply A × World V
  answer status (ok a, w) = (replied status a, w)
  answer status (err fault, w) = (catching (fault_of fault), w)

  -- `@UseGuards(AuthGuard)`, and the status of `@HttpCode`
  abbrev pub route : Access → ℕ → Action V A → World V → Reply A × World V
  route allowed status action w = answer status (action w)
  route (unauthenticated _) status action w = (catching (http_exception 401), w)
  route forbidden status action w = (catching (http_exception 403), w)

  -- The schema refuses.
  abbrev pub malformed_request : Action V A
  malformed_request w = (err invalid, w)

module _ {V : Type 0} ⦃D : Decimals V⦄ (access : Access) where
  abbrev create_of : System → Option CreateWalletBody → Action V CreateWalletResult
  create_of sys none = malformed_request
  create_of sys (some body) = create_wallet sys (record {
    wallet_id = body.wallet_id;
    player_id = body.player_id;
    initial_balance = body.initial_balance;
    correlation_id = none;
  })

  unfoldable pub post_wallet :
      System → Option CreateWalletBody → World V → Reply CreateWalletResult × World V
  post_wallet sys body = route access 201 (create_of sys body)

  unfoldable pub show_wallet : String → World V → Reply WalletView × World V
  show_wallet wallet_id = route access 200 (get_wallet wallet_id)

  abbrev ledger_of : Paging → String → Option LedgerQuery → Action V LedgerPageView
  ledger_of P wallet_id none = malformed_request
  ledger_of P wallet_id (some query) = get_wallet_ledger P wallet_id query.cursor query.limit

  unfoldable pub show_ledger :
      Paging → String → Option LedgerQuery → World V → Reply LedgerPageView × World V
  show_ledger P wallet_id query = route access 200 (ledger_of P wallet_id query)

  unfoldable pub post_reconciliation :
      String → World V → Reply (ReconciliationView × List ReconciliationView) × World V
  post_reconciliation wallet_id = route access 200 (reconcile wallet_id)

  unfoldable pub show_transaction : String → World V → Reply WagerTransactionView × World V
  show_transaction transaction_id = route access 200 (by_id transaction_id)

  unfoldable pub show_by_external_id :
      String → String → World V → Reply WagerTransactionView × World V
  show_by_external_id provider_id external_transaction_id =
      route access 200 (by_provider_and_external_id provider_id external_transaction_id)
