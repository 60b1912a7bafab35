-- ===== src/Lib.antt =====
-- RastiKiro: a Django application in which service companies take orders, send technicians, issue
-- invoices, take payments, and settle with technicians and with the platform. This library models
-- the services that decide about orders and about money, and what makes them correct.
--
-- The program's parts and how they interact
-- - apps/orders: an order goes from NEW over WAITING and IN_PROGRESS to DONE, or is cancelled. The
--   services accept, assign, complete, cancel, review, recycle and edit orders; every change of a
--   status is written to the log. Completing an order posts the technician's wage to the ledger and
--   makes a draft invoice.
-- - apps/invoices: services_wage.py divides an invoice's net total between technician and company and
--   says who absorbs the discounts; mark_paid settles an issued invoice, distributes the money that
--   the platform holds for it, and posts to the technicians' ledger and to the platform's.
-- - apps/payouts: services_split.py decides whether a payment is split at the gateway; services.py
--   keeps the technicians' ledger, to which services_order_wages.py and services_direct_settlement.py
--   post; services_escrow.py keeps the records of money held. The settlement chain pays them out: a
--   calculator says what is owed, a planner what may be settled, a builder puts it into a batch, and an
--   engine executes the batch, towards the companies (Layer 1, from the escrow records) and towards the
--   technicians (Layer 2, from their ledger). An approved adjustment document orders a refund, which
--   takes fee and wage back and closes the escrow record.
-- - apps/payments: a callback of a gateway verifies a payment with the provider; a confirmed payment
--   gets an escrow record, pays its invoice by mark_paid, and has its split recorded and posted.
--
-- Which file models which part
-- - Common: the names that all share. Int has signed integers over the native numbers, Table a
--   database table by primary key (`lookup` is `get(pk=...)`, `save` writes a row), Result the outcome
--   of a call (`raise_if c e` is `if c: raise e`), Text the code points of a str with strip and `in`.
-- - Orders: Model has the rows of apps/orders/models.py and the part of the database that the services
--   use; Eligibility is apps/orders/eligibility.py; Creation, Assignment, Completion, Cancellation,
--   Recycling and Editing are the service classes of apps/orders/services.py, recycle_service.py and
--   cancel_review_service.py, one function per service method under the method's name. Machine, Steps,
--   Accepting, Locked, Replacing and Renewal say what one call does, Effect and History what sequences
--   of calls keep,
--   Acceptance and Restoring relate services to each other, Stale and Idempotence show calls on old
--   objects and calls made twice.
-- - Invoice: Status is Invoice.Status; Wage.Defs is apps/invoices/services_wage.py, with Allocation on
--   discounts and Split on the division; MarkPaid is InvoiceMarkPaidService with the settlement of
--   services_settlement.py and what follows from it; Cancelling is services_cancel_request.py.
-- - Payouts: Split is PaymentSplitDecisionService.compute; Ledger has the rows (Entry), the service
--   (Write), the two posting services (Posting) and their laws (Balance, Invoices, Settlement), and
--   Concurrent the interleavings of writers; Escrow has EscrowRecordService (Defs), its state machine
--   (Machine), its table (Table) and the distribution for a paid invoice (Distribution); Fees is
--   services_platform_fee.py.
-- - Settlement: Books has the rows of batches, items, adjustment documents and backfill tasks; the
--   modules Calculator, Planner, Batches, Builder and Execution are the files
--   apps/payouts/services_settlement_*.py of these names. Below them, Eligible says what the planner lets
--   pass, Closed and Layer2 what a build makes, Success when it succeeds, Stuck what stops it, Again
--   what a second one finds, Outcome how an execution ends. Claims counts the items of live batches for
--   an invoice along histories of builds and executions; Technician follows one technician from a build
--   to its execution.
-- - Refunds: Documents is apps/payouts/services_adjustment.py and Machine the life of a document;
--   Execution is services_refund_execution.py, Reversal and Refunded what a refund writes, Equivalence
--   which documents are refunded, Effects the balances afterwards, Twice what two documents of one
--   invoice do, and Builds what the settlement chain makes of a refunded invoice.
-- - Payments: Start is PaymentStartService with CompanyPaymentEligibilityService, Defs is
--   PaymentVerifyService and PaymentCallbackService of apps/payments/services.py, with the provider's
--   answers as parameters; Opened and Started say what a start requires and leaves, Laws what a
--   verification does to payments, and Paid what it does to the invoice; Expiration is
--   services_expiration.py, with Expired, Cleanup and Clears on what the cleanup of old
--   payments may and does change, and Reconciliation is services_reconciliation.py, with Issues and
--   Reconciled on what its summary says.
--
-- State and errors
--   A service is a function from the database to a result: an exception is an `err`, and since
--   `transaction.atomic` rolls it back, an error carries no state. The one function that runs in
--   savepoints of its own, the escrow distribution, returns the table in both cases. An order service
--   gets the object that its caller holds, which may be older than the row; `save(update_fields=...)`
--   changes the named fields of the row alone, and `select_for_update().get` reads the row.
--   The clock is an argument `now`, in seconds; the local date and time of an instant, Django's model
--   validation and what the services only read (settings, rates, skills) are the fields of `Env`.
--
-- Numbers and bounds
--   Amounts are whole Rials. Fields that the database keeps from being negative are ℕ, balances and
--   form values that may be negative are ℤ. A percentage and a quantity are their number of hundredths
--   (two decimal places). Python's integers are unbounded and the database's column widths are not
--   modelled. All loops are over lists, so that no fuel is needed.
--
-- Not modelled
--   The creation, the rows, the totals and the issue of an invoice; views, forms, templates,
--   notifications beyond which event is emitted, SMS and payment providers (HTTP), reports,
--   closing, reconciliation and backfill of apps/payouts, the file of a provider's report, accounts and
--   permissions. Free texts that no decision reads (notes, descriptions, metadata) are left out of the
--   rows. A build of a batch holds the lock of its company and is one step; in the settlement chain a
--   ledger entry is named by its idempotency key, items stand newest first, and escrow
--   records in the order of their creation.
pub mod Common
pub mod Invoice
pub mod Orders
pub mod Payments
pub mod Payouts
pub mod Refunds
pub mod Settlement
