-- ===== src/Quotes.antt =====
-- Spot quotes (xauusd/quotes.py).
mod Record
mod History
mod Rows
mod Accepted
mod Saved
mod Examples
