-- ===== src/Lib.antt =====
-- The observability lab: webhook events of a shop, streamed into SQL Server. A receiver publishes
-- them to Kafka, the ingestion consumer writes each in one transaction and publishes the
-- approvals, and a worker delivers those to an external ERP.
--
-- Modelled here: the schema (db/models.py, db/migrations/versions/0001_initial_schema.py), the
-- ingestion consumer (services/ingestion_consumer/app/db_ops.py and consumer.py), the receiver,
-- the worker that delivers the approvals, the mock of the ERP, the simulator that puts load on
-- the receiver, the bulk load of synthetic rows with their generator, and the retention of the
-- pipeline log.
--
-- Server: the parts of SQL Server that the repository does not hold, as one parameter: collation,
--   clock, identity values, and how each statement fares. Statements are numbered, so that the
--   parameter can let any of them fail, each time in another way.
-- Result, Payload: exceptions, and decoded JSON with keys that may be absent or null.
-- Tables: the rows, the tables and the CHECK constraints.
-- Migrations: the three revisions of db/migrations/versions, step by step (Initial, Facts, Log), and
--   what a step does to a schema (Schema). Migrations.RoundTrip: the theorem.
-- Session: a connection, `conn.execute` and `engine.begin()` with its rollback. A COMMIT may fail,
--   or succeed with its reply lost. Session.Rules has the rules for pre- and postconditions,
--   Session.Succeeds the equations of what runs on a server that carries every statement out.
-- Sql: the statements, with the constraints and the trigger as tests; Sql.Keys has laws of keys,
--   Sql.Accepted and Sql.Stored the statements that no constraint refuses.
-- DbOps: db_ops.py, function by function.
-- Consumer.Process: `process_event` and `_run_in_txn`. Consumer.Handle: `handle_message`, with the
--   packages (orjson, tenacity, aiokafka) as a parameter and tenacity's two laws as its fields.
--   Consumer.Loop: the loop of `main`, over a list of what the calls of `getmany` return.
-- Consumer.Invariant: from the statements to the loop. Consumer.Terminal, Consumer.Ledger,
--   Consumer.Idempotence, Consumer.History, Consumer.Closing, Consumer.Linked and
--   Consumer.Progress: the theorems. Consumer.Samples: tests and witnesses.
--   Consumer.Succeeds, Consumer.Applied, Consumer.Created and Consumer.Bought: what a change of
--   status, an ORDER_CREATED event and the one after the other come to when nothing fails;
--   Consumer.Billed: what a payment and an invoice come to.
--   Consumer.Machine: an abstract machine of orders and events; Consumer.Machine.Refines: the loop
--   implements it.
--   Consumer.Main: `main`, with its clients, and its restarts. Consumer.Restarts: the theorems.
-- Clients: the calls that open and close the clients of a service, and `try: … finally: …`.
-- Parties: the versions of addresses. Parties.History: over the loop. Parties.Upsert: one call.
--   Parties.Succeeds, Parties.Expiry and Parties.Placed: the calls when nothing fails.
-- Broker: what a send to Kafka may come to.
-- Receiver.Envelope and Receiver.Serve: services/webhook_receiver/app/main.py, request by request.
--   Receiver.Lifespan: `lifespan`. Receiver.Keys, Receiver.Accounts and Receiver.Started: the
--   theorems.
-- Worker.Deliver: `deliver` of services/order_approved_worker/app/worker.py, with httpx, tenacity,
--   aiokafka and the ERP as one parameter. Worker.Loop: the loop of its `main`, over the messages
--   that the consumer hands out. Worker.Main: its `main`, and its restarts. Worker.Settled,
--   Worker.Progress and Worker.Restarts: the theorems.
-- Generator: airflow/scripts/data_generator.py. Generator.Rows has the loop as the list of what it
--   yields, with `random.Random` as a parameter; Generator.Exact and Generator.Pools: the theorems.
-- BulkLoad: airflow/dags/bulk_load_dimensions.py. BulkLoad.Text, BulkLoad.Dates and BulkLoad.Line
--   have the data file, character by character; BulkLoad.Format is
--   airflow/scripts/order_history_fact.fmt. BulkLoad.Host has SQL Server, bcp, the disk and Telegram
--   as one parameter, and the state that the tasks share; BulkLoad.Tasks the tasks, BulkLoad.Notify
--   airflow/scripts/notify.py and run_history.py, BulkLoad.Dag a run of the DAG with the retries.
--   BulkLoad.Digits has the laws of decimals, BulkLoad.Rules and BulkLoad.Keeps the rules for tasks;
--   BulkLoad.RoundTrip, Widths, Served, Clean, Reported and Complete: the theorems, with
--   BulkLoad.Loaded and BulkLoad.Reliable for the load.
-- Erp: services/mock_external_api/app/main.py. Erp.Serve has `receive_order`, and its state after the
--   worker's POSTs; Erp.Received: the theorem about both.
-- Pipeline: services/ingestion_consumer/app/consumer.py and order_approved_worker/app/worker.py
--   together, by the record that one publishes and the other reads.
-- Simulator: services/load_simulator/simulate.py. Simulator.Events has the events and what the
--   receiver reads of them; Simulator.Run the coroutines and their semaphore, over any list of moves;
--   Simulator.Report the numbers of its report; Simulator.Counts, Ends, Order, Percentiles and
--   Totals: the theorems; Simulator.Keys and Simulator.Replay: those about
--   the receiver and the consumer too.
-- Retention: airflow/dags/pipeline_log_retention.py. Retention.Run has one run of the task, with the
--   calls of pyodbc and the order of the rows as a parameter; Retention.Trim has the rows that are
--   trimmed, Retention.Bounds the theorem.
--
-- Bounds: the loop of `generate_rows` has as many turns as there are rows, which is enough when
-- the batch size is positive. Elsewhere there is no fuel: retries are counted by the argument of
-- tenacity's `retry` or are the two attempts of an Airflow task, and loops run over lists; the
-- digits of a number have as many rounds as the number and one more. Numbers are unbounded, and
-- the amounts and dates of the events are numbers that are only copied.
-- Not modelled: other writers of the database (one consumer, one connection at a time), column
-- widths and type conversions (a statement that they would refuse is one that the server
-- parameter refuses), JSON values of an unexpected type, waiting times, the process's own log,
-- the values that a refused INSERT uses up, the configuration of the services and of the
-- migrations (common/db.py, db/migrations/env.py: SQLAlchemy and Alembic), how long a request of
-- the load simulator takes, the printing of its report, and its end by an exception of a request
-- that is no `httpx.HTTPError`.
pub mod Prelude
pub mod Server
pub mod Broker
pub mod Clients
pub mod Result
pub mod Payload
pub mod Tables
pub mod Migrations
pub mod Session
pub mod Sql
pub mod DbOps
pub mod Consumer
pub mod Parties
pub mod Worker
pub mod Generator
pub mod Receiver
pub mod Retention
pub mod BulkLoad
pub mod Simulator
pub mod Erp
pub mod Pipeline
