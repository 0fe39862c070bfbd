-- ===== src/Fpu/Arith/Product.antt =====
-- `multiply` of src/fpu.cpp, against the product of two numbers.
