-- ===== src/Fpu/Divide/Ratio.antt =====
-- `divide` of src/fpu.cpp, against the quotient of two numbers.
