-- ===== src/Jobs.antt =====
-- Durable shell jobs (xauusd/bits_jobs.py): the table of jobs.
mod Store
mod Start
mod Prune
mod Once
mod Examples
