-- ===== src/Spark.antt =====
-- The formats of invoices and addresses: crates/spark-invoice and crates/spark-address.
pub mod Proto
pub mod Invoice
pub mod Address
