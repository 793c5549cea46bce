-- ===== src/Examples.antt =====
-- Runs of the theorems at concrete inputs: a module for each group of parts, over one arithmetic.
mod Numbers
mod Sources
mod Checks
mod Catalogue
mod Conflicts
mod Crawling
mod Pipeline
