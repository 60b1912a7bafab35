-- ===== src/Invoice/Wage.antt =====
-- apps/invoices/services_wage.py and apps/invoices/services_settlement.py: how an invoice's net
-- total is divided between technician and company, and who absorbs its discounts.
-- Amounts are whole Rials (`DecimalField(decimal_places=0)`); a discount may come in negative from a
-- form, so it is an integer. A percentage (`DecimalField(max_digits=5, decimal_places=2)`) is its
-- number of hundredths. All quotients are exact enough in Python's 28 digits that the rounding of
-- the exact value, which is modelled, is the rounding that the code makes.
pub mod Defs
pub mod Allocation
pub mod Split
